-- ===== src/Helpers/Uuid.antt =====
-- src/helpers.cpp: `generate_uuid_string`. The k-th result of `std::rand()` is `rand k`, and
-- `draws` counts the calls made before.
use asio_ftp.Base.{
  ℕ, zero, suc, ◌+◌, ◌%◌, ◌≤◌, ◌<◌, ◌≡◌, [], ◌∷◌, ◌++◌, Bytes, length, All, All-append, Lacks,
  length-append, ◌==◌, if◌then◌else◌, arith, ◌⊎◌,
}

-- The `switch` on `std::rand() % 16`.
hex_digit : ℕ → ℕ
hex_digit n =
    if n == 10
    then b'A'
    else if n == 11
    then b'B'
    else if n == 12
    then b'C'
    else if n == 13
    then b'D'
    else if n == 14
    then b'E'
    else if n == 15
    then b'F'
    else b'0' + n

module _ (rand : ℕ → ℕ) where
  uuid_loop : ℕ → ℕ → Bytes → Bytes
  uuid_loop zero draws uuid = uuid
  uuid_loop (suc rounds) draws uuid =
      uuid_loop rounds (draws + 1) (uuid ++ hex_digit (rand draws % 16) ∷ [])

  unfoldable pub generate_uuid_string : ℕ → ℕ → Bytes
  unfolding uuid_loop hex_digit
  generate_uuid_string draws length = uuid_loop length draws []

abbrev pub IsHexDigit : ℕ → Type 0
IsHexDigit c = ((b'0' ≤ c) × (c ≤ b'9')) ⊎ ((b'A' ≤ c) × (c ≤ b'F'))

hex_digit-IsHexDigit : (n : ℕ) → n < 16 → IsHexDigit (hex_digit n)
unfolding hex_digit
hex_digit-IsHexDigit n h = ground arith

module _ (rand : ℕ → ℕ) where
  uuid_loop_lem :
      (rounds draws : ℕ) (uuid : Bytes)
      → All IsHexDigit uuid
      → All IsHexDigit (uuid_loop rand rounds draws uuid)
        × (length (uuid_loop rand rounds draws uuid) ≡ length uuid + rounds)
  unfolding uuid_loop
  uuid_loop_lem zero draws uuid h = (h, omega arith)
  uuid_loop_lem (suc rounds) draws uuid h =
      let digit = hex_digit (rand draws % 16) in
      let (hex, long) = uuid_loop_lem rounds (draws + 1) (uuid ++ digit ∷ []) (
        All-append IsHexDigit uuid (digit ∷ []) h
          (hex_digit-IsHexDigit (rand draws % 16) (omega arith), tt)) in
      (hex, omega (arith, long, length-append uuid (digit ∷ [])))

  -- Whatever the random numbers are, an identifier has the length asked for, and holds the
  -- hexadecimal digits in upper case only.
  pub generate_uuid_string-IsHexDigit :
      (draws n : ℕ)
      → All IsHexDigit (generate_uuid_string rand draws n)
        × (length (generate_uuid_string rand draws n) ≡ n)
  unfolding generate_uuid_string
  generate_uuid_string-IsHexDigit draws n =
      let (hex, long) = uuid_loop_lem n draws [] tt in (hex, omega (arith, long))

pub hex-Lacks : (s : Bytes) → All IsHexDigit s → Lacks 0 s
hex-Lacks [] h = tt
hex-Lacks (c ∷ s) h = (ground arith, hex-Lacks s h.1)
