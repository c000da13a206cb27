-- ===== src/Helpers/Decimal.antt =====
-- The decimal conversions of the standard library that the sources use: `std::to_string` on values
-- that are not negative, and `std::stoll` on the text of such a value.
use asio_ftp.Base.{
  length, ℕ, zero, suc, ◌+◌, ◌-◌, ◌*◌, ◌/◌, ◌%◌, ◌^◌, ◌≤◌, ◌<◌, ◌≡◌, refl, ◌∙◌, [], ◌∷◌, Bytes,
  Bool, true, false, ◌||◌, Option, none, some, ltb, if◌then◌else◌, arith, Bool-cases, inl, inr, not,
}

-- Digits are put in front of `out`; a round divides by ten.
digit_loop : ℕ → ℕ → Bytes → Bytes
digit_loop zero n out = []
digit_loop (suc fuel) n out =
    let rest = digit_loop fuel (n / 10) ((b'0' + n % 10) ∷ out) in
    if ltb n 10 then (b'0' + n) ∷ out else rest

-- A number below 2 ^ 64 has at most 20 digits; `suc n` rounds are enough for every n.
unfoldable pub to_string : ℕ → Bytes
unfolding digit_loop
to_string n = digit_loop (suc n) n []

abbrev pub llong_max : ℕ
llong_max = 2 ^ 63 - 1

-- Digits up to the first other byte; `none` stands for the exception on a value out of range.
stoll_loop : Bytes → ℕ → Option ℕ
stoll_loop [] n = some n
stoll_loop (c ∷ s) n =
    let more = stoll_loop s (n * 10 + (c - b'0')) in
    if ltb c b'0' || ltb b'9' c
    then some n
    else if ltb llong_max (n * 10 + (c - b'0'))
    then none
    else more

unfoldable pub stoll : Bytes → Option ℕ
unfolding stoll_loop
stoll [] = none
stoll (c ∷ s) = if ltb c b'0' || ltb b'9' c then none else stoll_loop (c ∷ s) 0

read_digit :
    (d m n : ℕ) (out : Bytes)
    → d < 10
    → m * 10 + d ≡ n
    → n ≤ llong_max
    → stoll_loop ((b'0' + d) ∷ out) m ≡ stoll_loop out n
unfolding stoll_loop
read_digit d m n out h e fits =
    let e' : m * 10 + (b'0' + d - b'0') ≡ n = omega arith in rw e' (ground arith)

stoll_loop-digit_loop :
    (fuel n : ℕ) (out : Bytes)
    → n < fuel
    → n ≤ llong_max
    → stoll_loop (digit_loop fuel n out) 0 ≡ stoll_loop out n
unfolding digit_loop
stoll_loop-digit_loop zero n out lt fits = absurd (omega arith)
stoll_loop-digit_loop (suc fuel) n out lt fits = elim (Bool-cases (ltb n 10)) [
  | inl small ↦ rw small (read_digit n 0 n out (ground arith) (omega arith) fits)
  | inr large ↦
      let bound : 10 ≤ n = ground arith in
      rw large (
        stoll_loop-digit_loop fuel (n / 10) ((b'0' + n % 10) ∷ out) (omega arith) (omega arith)
        ∙ read_digit (n % 10) (n / 10) n out (omega arith) (omega arith) fits)
]

-- Whether the text begins with a digit.
starts_with_digit : Bytes → Bool
starts_with_digit [] = false
starts_with_digit (c ∷ s) = not (ltb c b'0' || ltb b'9' c)

digit_loop-starts_with_digit :
    (fuel n : ℕ) (out : Bytes) → n < fuel → starts_with_digit (digit_loop fuel n out) ≡ true
unfolding digit_loop starts_with_digit
digit_loop-starts_with_digit zero n out lt = absurd (omega arith)
digit_loop-starts_with_digit (suc fuel) n out lt =
    ground (arith, digit_loop-starts_with_digit fuel (n / 10) ((b'0' + n % 10) ∷ out))

stoll-stoll_loop : (s : Bytes) → starts_with_digit s ≡ true → stoll s ≡ stoll_loop s 0
unfolding stoll starts_with_digit
stoll-stoll_loop [] h = cc
stoll-stoll_loop (c ∷ s) h = ground arith

-- A number that `long long` holds is read back from its decimal text.
stoll-to_string : (n : ℕ) → n ≤ llong_max → stoll (to_string n) ≡ some n
unfolding to_string
stoll-to_string n fits =
    stoll-stoll_loop _ (digit_loop-starts_with_digit (suc n) n [] (omega arith))
    ∙ (stoll_loop-digit_loop (suc n) n [] (omega arith) fits ∙ unfold stoll_loop in refl)

pub length-to_string_one : (n : ℕ) → ltb n 10 ≡ true → length (to_string n) ≡ 1
unfolding to_string digit_loop
length-to_string_one n h = rw h refl

pub length-to_string_two : (n : ℕ) → ltb n 10 ≡ false → n < 100 → length (to_string n) ≡ 2
unfolding to_string digit_loop
length-to_string_two zero h lt = cc
length-to_string_two (suc n) h lt =
    let short : ltb (suc n / 10) 10 ≡ true = ground (arith, lt) in rw (h, short) refl
