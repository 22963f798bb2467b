-- ===== src/Security/Passwords/Tests.antt =====
-- A password hash at a concrete input, with a toy encoding and key derivation (security/auth.go).
use relay_gateway.Common.Base.{
  ℕ, zero, suc, ◌+◌, ◌-◌, ◌≡◌, refl, ap, true, false, some, [], ◌∷◌, map, arith,
}
use relay_gateway.Common.Lists.{length}
use relay_gateway.Common.Text.{Text, codes}
use relay_gateway.Security.Passwords.{Kdf, hash_password, verify_password, valid_password}
use relay_gateway.Security.Passwords.RoundTrip.{lacks, verify_password-hash_password}

abbrev shift : Text → Text
shift s = map (λ c. c + 100) s

abbrev unshift : Text → Text
unshift s = map (λ c. c - 100) s

abbrev fill : ℕ → Text → Text
fill zero s = []
fill (suc n) s = length s ∷ fill n s

abbrev toy : Kdf
toy = record { id_key = λ p s t m l n. fill n p; encode = shift; decode = λ s. some (unshift s) }

unshift-shift : (s : Text) → unshift (shift s) ≡ s
unshift-shift [] = refl
unshift-shift (c ∷ s) = ground (arith, unshift-shift s)

shift-lacks : (s : Text) → lacks b'$' (shift s) ≡ true
shift-lacks [] = refl
shift-lacks (c ∷ s) = ground (arith, shift-lacks s)

length-fill : (n : ℕ) (s : Text) → length (fill n s) ≡ n
length-fill zero s = refl
length-fill (suc n) s = omega (arith, length-fill n s)

verify_password-hash_password_example :
    verify_password toy
      (hash_password toy 8 (codes "salt") (codes "correct horse"))
      (codes "correct horse")
    ≡ true
verify_password-hash_password_example =
    verify_password-hash_password toy 8 (codes "salt") (codes "correct horse")
      (λ s. ap some (unshift-shift s)) shift-lacks (λ p s t m l n. length-fill n p) (omega arith)

too_short : valid_password (codes "short") ≡ false
unfolding valid_password
too_short = refl
