-- ===== src/Security/Passwords/RoundTrip.antt =====
-- A hash accepts its own password (security/auth.go, `hashPassword`, `verifyPassword`).
use relay_gateway.Common.Base.{
  ℕ, ◌<◌, ◌≡◌, refl, inl, inr, Bool, true, false, not, ◌&&◌, ◌||◌, some, [], ◌∷◌, ◌++◌, ◌==◌,
  if◌then◌else◌, arith, Bool-cases,
}
use relay_gateway.Common.Lists.{length}
use relay_gateway.Common.Text.{Text, codes, text_eq, text_eq_refl}
use relay_gateway.Security.Passwords.{
  Kdf, parallelism, header, hash_password, split, scan_literal, skip_blanks, scan_digits, scan_uint,
  scan_costs, Costs, verify_password,
}

-- A text without the byte.
abbrev pub lacks : ℕ → Text → Bool
lacks sep [] = true
lacks sep (c ∷ s) = not (c == sep) && lacks sep s

split-lacks : (sep : ℕ) (s : Text) → lacks sep s ≡ true → split sep s ≡ s ∷ []
unfolding split
split-lacks sep [] h = refl
split-lacks sep (c ∷ s) h = ground (arith, split-lacks sep s)

same_byte : (c : ℕ) → (c == c) ≡ true
same_byte c = ground arith

split-append :
    (sep : ℕ) (s t : Text) → lacks sep s ≡ true → split sep (s ++ sep ∷ t) ≡ s ∷ split sep t
unfolding split
split-append sep [] t h = rw (same_byte sep) refl
split-append sep (c ∷ s) t h = ground (arith, split-append sep s t)

split-header :
    (cpus : ℕ) (t : Text)
    → split b'$' (header cpus ++ t)
      ≡ []
        ∷ codes "argon2id"
        ∷ codes "v=19"
        ∷ (if cpus == 1 then codes "m=65536,t=3,p=1" else codes "m=65536,t=3,p=2")
        ∷ split b'$' t
unfolding split header
split-header cpus t = elim (Bool-cases (cpus == 1)) [ inl e ↦ rw e refl | inr e ↦ rw e refl ]

abbrev costs : ℕ → Costs
costs cpus = record { memory = 65536; iterations = 3; lanes = parallelism cpus }

scan_costs-header :
    (cpus : ℕ)
    → scan_costs (if cpus == 1 then codes "m=65536,t=3,p=1" else codes "m=65536,t=3,p=2")
      ≡ some (costs cpus)
unfolding scan_costs scan_literal scan_uint scan_digits skip_blanks
scan_costs-header cpus = elim (Bool-cases (cpus == 1)) [ inl e ↦ rw e refl | inr e ↦ rw e refl ]

costs_positive : (cpus : ℕ) → ((costs cpus).iterations == 0 || (costs cpus).lanes == 0) ≡ false
costs_positive cpus = ground arith

-- A hash that was made from a password verifies that password, on any number of processors, where
-- base64 decodes what it encoded and writes no "$", the salt is not empty and the key has the length
-- that was asked for.
pub verify_password-hash_password :
    (kdf : Kdf) (cpus : ℕ) (salt password : Text)
    → ((s : Text) → kdf.decode (kdf.encode s) ≡ some s)
    → ((s : Text) → lacks b'$' (kdf.encode s) ≡ true)
    → ((p s : Text) (t m l n : ℕ) → length (kdf.id_key p s t m l n) ≡ n)
    → 0 < length salt
    → verify_password kdf (hash_password kdf cpus salt password) password ≡ true
unfolding verify_password hash_password text_eq
verify_password-hash_password kdf cpus salt password back plain size h =
    let key = kdf.id_key password salt 3 65536 (parallelism cpus) 32 in
    let n : length key ≡ 32 = size password salt 3 65536 (parallelism cpus) 32 in
    let s : (length salt == 0) ≡ false = ground (arith, h) in
    rw
      (
        split-header cpus (kdf.encode salt ++ b'$' ∷ kdf.encode key),
        split-append b'$' (kdf.encode salt) (kdf.encode key) (plain salt),
        split-lacks b'$' (kdf.encode key) (plain key),
        scan_costs-header cpus,
        costs_positive cpus,
        back salt,
        back key,
        n,
        s,
      )
      (text_eq_refl key)
