-- ===== src/Security/Passwords.antt =====
-- Password hashes (security/auth.go: `validateUsername`, `validatePassword`, `hashPassword`,
-- `verifyPassword`). Argon2 and base64 are parameters, and so is the salt that `rand.Read` gives.
pub mod RoundTrip
pub mod Tests
use relay_gateway.Common.Base.{
  ℕ, ◌+◌, ◌-◌, ◌*◌, ◌^◌, Bool, true, false, not, ◌&&◌, ◌||◌, Option, none, some, List, [], ◌∷◌,
  ◌++◌, ltb, leb, ◌==◌, if◌then◌else◌,
}
use relay_gateway.Common.Lists.{length}
use relay_gateway.Common.Text.{Text, codes, text_eq, trim_space}

-- `argon2.IDKey` (password, salt, iterations, memory, parallelism, key length) and
-- `base64.RawStdEncoding`.
pub record Kdf : Type 0 where
  pub id_key : Text → Text → ℕ → ℕ → ℕ → ℕ → Text
  pub encode : Text → Text
  pub decode : Text → Option Text

unfoldable pub valid_username : Text → Bool
valid_username username = let n = length (trim_space username) in not (ltb n 3 || ltb 64 n)

unfoldable pub valid_password : Text → Bool
valid_password password = not (ltb (length password) 12 || ltb 128 (length password))

abbrev pub parallelism : ℕ → ℕ
parallelism cpus = if cpus == 1 then 1 else 2

-- The header of a hash, as `fmt.Sprintf` prints it.
unfoldable pub header : ℕ → Text
header cpus =
    if cpus == 1
    then codes "$argon2id$v=19$m=65536,t=3,p=1$"
    else codes "$argon2id$v=19$m=65536,t=3,p=2$"

unfoldable pub hash_password : Kdf → ℕ → Text → Text → Text
hash_password kdf cpus salt password =
    header cpus
    ++ (kdf.encode salt
        ++ b'$' ∷ kdf.encode (kdf.id_key password salt 3 65536 (parallelism cpus) 32))

-- `strings.Split` at one byte.
abbrev pub prepend : ℕ → List Text → List Text
prepend c [] = (c ∷ []) ∷ []
prepend c (s ∷ ss) = (c ∷ s) ∷ ss

unfoldable pub split : ℕ → Text → List Text
split sep [] = [] ∷ []
split sep (c ∷ s) = let rest = split sep s in if c == sep then [] ∷ rest else prepend c rest

-- The parts of `fmt.Sscanf` that the format "m=%d,t=%d,p=%d" uses: fixed text, and unsigned numbers,
-- before which blanks are skipped. What follows the last number is not looked at.
unfoldable pub scan_literal : Text → Text → Option Text
scan_literal [] s = some s
scan_literal (c ∷ lit) [] = none
scan_literal (c ∷ lit) (d ∷ s) = let rest = scan_literal lit s in if c == d then rest else none

unfoldable pub skip_blanks : Text → Text
skip_blanks [] = []
skip_blanks (c ∷ s) = let rest = skip_blanks s in if c == 32 || c == 9 then rest else c ∷ s

abbrev pub is_digit : ℕ → Bool
is_digit c = leb 48 c && leb c 57

unfoldable pub scan_digits : ℕ → Text → ℕ × Text
scan_digits n [] = (n, [])
scan_digits n (c ∷ s) =
    let rest = scan_digits (n * 10 + (c - 48)) s in if is_digit c then rest else (n, c ∷ s)

abbrev pub starts_with_digit : Text → Bool
starts_with_digit [] = false
starts_with_digit (c ∷ s) = is_digit c

-- A number of at most `bits` bits.
unfoldable pub scan_uint : ℕ → Text → Option (ℕ × Text)
scan_uint bits s =
    let (n, rest) = scan_digits 0 (skip_blanks s) in
    if starts_with_digit (skip_blanks s) && ltb n (2 ^ bits) then some (n, rest) else none

abbrev pub after_literal {ℓ} : {A : Type ℓ} → Option Text → (Text → Option A) → Option A
after_literal none f = none
after_literal (some s) f = f s

abbrev pub after_number {ℓ} : {A : Type ℓ} → Option (ℕ × Text) → (ℕ → Text → Option A) → Option A
after_number none f = none
after_number (some (n, s)) f = f n s

pub record Costs : Type 0 where
  pub memory : ℕ
  pub iterations : ℕ
  pub lanes : ℕ  -- `parallelism`

unfoldable pub scan_costs : Text → Option Costs
scan_costs s = after_literal (scan_literal (codes "m=") s) (λ s1.
    after_number (scan_uint 32 s1) (λ memory s2.
      after_literal (scan_literal (codes ",t=") s2) (λ s3.
        after_number (scan_uint 32 s3) (λ iterations s4.
          after_literal (scan_literal (codes ",p=") s4) (λ s5.
            after_number (scan_uint 8 s5) (λ lanes s6.
              some (record { memory = memory; iterations = iterations; lanes = lanes })))))))

-- The checks on the decoded parts, and the comparison.
abbrev pub matches : Kdf → Text → Costs → Option Text → Option Text → Bool
matches kdf password c (some salt) (some want) =
    (not (length salt == 0) && not (length want == 0))
    && text_eq (kdf.id_key password salt c.iterations c.memory c.lanes (length want)) want
matches kdf password c _ _ = false

abbrev pub verify_costs : Kdf → Text → Option Costs → Text → Text → Bool
verify_costs kdf password none salt want = false
verify_costs kdf password (some c) salt want =
    if c.iterations == 0 || c.lanes == 0
    then false
    else matches kdf password c (kdf.decode salt) (kdf.decode want)

abbrev pub verify_parts : Kdf → Text → List Text → Bool
verify_parts kdf password (p0 ∷ p1 ∷ p2 ∷ p3 ∷ p4 ∷ p5 ∷ []) =
    if not (text_eq p1 (codes "argon2id")) || not (text_eq p2 (codes "v=19"))
    then false
    else verify_costs kdf password (scan_costs p3) p4 p5
verify_parts kdf password _ = false

unfoldable pub verify_password : Kdf → Text → Text → Bool
verify_password kdf encoded password = verify_parts kdf password (split b'$' encoded)
