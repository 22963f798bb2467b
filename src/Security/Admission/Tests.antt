-- ===== src/Security/Admission/Tests.antt =====
-- Login admission at concrete inputs (security/admission.go).
use relay_gateway.Common.Base.{◌+◌, ◌≤◌, ◌≡◌, refl, true, false, none, some, List, [], ◌∷◌, arith}
use relay_gateway.Common.Lists.{length}
use relay_gateway.Common.Text.{Text, codes}
use relay_gateway.Security.Admission.{
  LoginBucket, LoginAttempts, LoginAttempt, max_login_buckets, keep_recent, deref,
  login_bucket_allowed, record_login_bucket, begin_login_attempt, finish, record_login_result,
  find_item,
}
use relay_gateway.Security.Admission.Gate.{
  Call, begins, finishes, step, run, empty_gate, count, finish_at,
}
use relay_gateway.Security.Admission.Locking.{BucketCall, starts, fails, table_bounded}
use relay_gateway.Security.Admission.Slots.{at_most_five}

-- Four failures in a minute.
abbrev shaken : LoginBucket
shaken = record {
  failures = 1000000000000 ∷ 1010000000000 ∷ 1020000000000 ∷ 1030000000000 ∷ [];
  locked_to = 0;
  last_seen = 1030000000000;
  in_flight = 1;
}

-- Two more attempts are begun, and one that was under way fails.
abbrev later_calls : List BucketCall
later_calls = starts 1070000000000 ∷ fails 1080000000000 ∷ starts 1090000000000 ∷ []

abbrev alice : Text
alice = codes "1.2.3.4|alice"

abbrev table : LoginAttempts
table = record { items = (alice, 0) ∷ []; heap = shaken ∷ [] }

abbrev attempt : LoginAttempt
attempt = record { key = alice; bucket = 0; done = false }

table_bounded_example :
    (length (begin_login_attempt table alice 1060000000000).0.items ≤ max_login_buckets)
    × (length (finish table attempt (some false) 1060000000000).0.items ≤ max_login_buckets)
    × (length (record_login_result table alice true 1060000000000).items ≤ max_login_buckets)
table_bounded_example =
    table_bounded table alice attempt (some false) true 1060000000000 (omega arith)

-- Six attempts at once, of which one fails and one is cancelled.
abbrev burst : List Call
burst =
    begins alice 1000000000000
    ∷ begins alice 1000000000001
    ∷ begins alice 1000000000002
    ∷ begins alice 1000000000003
    ∷ begins alice 1000000000004
    ∷ begins alice 1000000000005
    ∷ finishes 0 (some false) 1000000000006
    ∷ finishes 1 none 1000000000007
    ∷ []

at_most_five_example :
    length (deref (run empty_gate burst).table.heap 0).failures
      + count 0 (run empty_gate burst).pending
    ≤ 5
at_most_five_example = at_most_five burst 0

-- The sixth attempt is refused.
sixth_refused : length (run empty_gate burst).pending ≡ 3
unfolding run step empty_gate begin_login_attempt finish_at finish record_login_bucket
    login_bucket_allowed find_item keep_recent relay_gateway.Security.Admission.make_login_bucket
    relay_gateway.Security.Admission.insert_bucket relay_gateway.Security.Admission.admit
    relay_gateway.Common.Text.text_eq relay_gateway.Security.Admission.prune_login_bucket
sixth_refused = refl
