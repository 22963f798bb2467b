-- ===== src/Common.antt =====
-- The helpers that the components share: tests, lists over the native numbers, integers, text.
pub mod Base
pub mod Lists
pub mod Results
pub mod Tables
pub mod Int
pub mod Text
