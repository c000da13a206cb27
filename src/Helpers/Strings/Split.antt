-- ===== src/Helpers/Strings/Split.antt =====
-- What `string_split`, `string_join` and `string_replace` have to do with one another.
use asio_ftp.Base.{
  ℕ, zero, suc, ◌+◌, ◌<◌, ◌≡◌, refl, ◌≢◌, ◌∙◌, sym, ap, false, none, some, List, [], ◌∷◌, ◌++◌,
  append_assoc, arith, ◌||◌, Bool-cases, Option-cases, inl, inr, Bytes, is_empty, same, same→≡,
  find, begins_with, begins_with→drop, length, take, drop, ltb, length-append, get_elem?,
}
use native.Mathlib.Nat.{le_refl}
use asio_ftp.Helpers.Strings.{
  split_loop, string_split, join_loop, string_join, replace_loop, string_replace,
}

-- A position that `find` returns is one of the text it looks for.
find_sound :
    (s d : Bytes) (i : ℕ) → find s d ≡ some i → s ≡ take i s ++ (d ++ drop (i + length d) s)
unfolding find
find_sound [] [] i h = ground arith
find_sound [] (c ∷ d) i h = cc
find_sound (c ∷ s) d zero h = elim (Bool-cases (begins_with (c ∷ s) d)) [
  | inl here ↦ begins_with→drop (c ∷ s) d here ∙ ap (λ k. d ++ drop k (c ∷ s)) (omega arith)
  | inr not_here ↦ absurd (ground arith)
]
find_sound (c ∷ s) d (suc i) h =
    let e : suc i + length d ≡ suc (i + length d) = omega arith in
    rw e (ap (λ t. c ∷ t) (find_sound s d i (ground arith)))

-- Joining behind an accumulator.
join_loop-append :
    (p : Bytes) (ps : List Bytes) (sep joined : Bytes)
    → join_loop (p ∷ ps) sep joined ≡ joined ++ string_join (p ∷ ps) sep
unfolding string_join
join_loop-append p [] sep joined = refl
join_loop-append p (q ∷ ps) sep joined =
    rw (join_loop-append q ps sep ((joined ++ p) ++ sep), join_loop-append q ps sep (p ++ sep))
      (simp append_assoc)

pub join-cons :
    (p : Bytes) (ps : List Bytes) (sep : Bytes)
    → ps ≢ []
    → string_join (p ∷ ps) sep ≡ p ++ (sep ++ string_join ps sep)
unfolding string_join
join-cons p [] sep h = absurd (h refl)
join-cons p (q ∷ ps) sep h = join_loop-append q ps sep (p ++ sep) ∙ append_assoc p sep _

pub join_one : (p sep : Bytes) → string_join (p ∷ []) sep ≡ p
unfolding string_join
join_one p sep = refl

module _ (d : Bytes) (nonempty : d ≢ []) where
  positive : 0 < length d
  positive = elim (Option-cases (get_elem? d 0)) [
    | inl e ↦ ground arith
    | inr (c, e) ↦ ground arith
  ]

  -- A round leaves a shorter text.
  rest_shorter :
      (s : Bytes) (i fuel : ℕ)
      → find s d ≡ some i
      → length s < suc fuel
      → length (drop (i + length d) s) < fuel
  rest_shorter s i fuel h lt =
      let rest = drop (i + length d) s in
      omega (
        arith,
        ap length (find_sound s d i h),
        length-append (take i s) (d ++ rest),
        length-append d rest,
        positive,
      )

  pub split_loop-ne-nil : (fuel : ℕ) (s : Bytes) → 0 < fuel → split_loop fuel s d ≢ []
  unfolding split_loop
  split_loop-ne-nil zero s h = absurd (omega arith)
  split_loop-ne-nil (suc fuel) s h = ground arith

  pub split_loop-none :
      (fuel : ℕ) (s : Bytes) → find s d ≡ none → split_loop (suc fuel) s d ≡ s ∷ []
  unfolding split_loop
  split_loop-none fuel s e = ground arith

  pub split_loop-some :
      (fuel : ℕ) (s : Bytes) (i : ℕ)
      → find s d ≡ some i
      → split_loop (suc fuel) s d ≡ take i s ∷ split_loop fuel (drop (i + length d) s) d
  unfolding split_loop
  split_loop-some fuel s i e = ground arith

  pub join-split_loop :
      (fuel : ℕ) (s : Bytes) → length s < fuel → string_join (split_loop fuel s d) d ≡ s
  join-split_loop zero s h = absurd (omega arith)
  join-split_loop (suc fuel) s h = elim (Option-cases (find s d)) [
    | inl e ↦ rw (split_loop-none fuel s e) (join_one s d)
    | inr (i, e) ↦
        let shorter = rest_shorter s i fuel e h in
        rw
          (
            split_loop-some fuel s i e,
            join-cons (take i s) _ d (split_loop-ne-nil fuel (drop (i + length d) s) (omega arith)),
            join-split_loop fuel (drop (i + length d) s) shorter,
          )
          (sym (find_sound s d i e))
  ]

  replace_loop-none :
      (fuel : ℕ) (s r replaced : Bytes)
      → find s d ≡ none
      → replace_loop (suc fuel) s d r replaced ≡ replaced ++ s
  unfolding replace_loop
  replace_loop-none fuel s r replaced e = ground arith

  replace_loop-some :
      (fuel : ℕ) (s r replaced : Bytes) (i : ℕ)
      → find s d ≡ some i
      → replace_loop (suc fuel) s d r replaced
        ≡ replace_loop fuel (drop (i + length d) s) d r ((replaced ++ take i s) ++ r)
  unfolding replace_loop
  replace_loop-some fuel s r replaced i e = ground arith

  replace_loop-join :
      (fuel : ℕ) (s r replaced : Bytes)
      → length s < fuel
      → replace_loop fuel s d r replaced ≡ replaced ++ string_join (split_loop fuel s d) r
  replace_loop-join zero s r replaced h = absurd (omega arith)
  replace_loop-join (suc fuel) s r replaced h = elim (Option-cases (find s d)) [
    | inl e ↦ rw (replace_loop-none fuel s r replaced e, split_loop-none fuel s e, join_one s r)
    | inr (i, e) ↦
        let shorter = rest_shorter s i fuel e h in
        rw
          (
            replace_loop-some fuel s r replaced i e,
            split_loop-some fuel s i e,
            join-cons (take i s) _ r (split_loop-ne-nil fuel (drop (i + length d) s) (omega arith)),
            replace_loop-join fuel (drop (i + length d) s) r _ shorter,
          )
          (simp append_assoc)
  ]

is_empty-ne-nil : (d : Bytes) → is_empty d ≡ false → d ≢ []
is_empty-ne-nil d h e = cc

-- Joining the parts of a split with the delimiter gives the text back, whatever the two are.
join-split :
    (input delimiter : Bytes) → string_join (string_split input delimiter) delimiter ≡ input
unfolding string_split string_join
join-split [] d = refl
join-split (c ∷ s) d = ground (arith, join-split_loop d _ (suc (length (c ∷ s))) (c ∷ s))

pub string_split_long :
    (s d : Bytes)
    → (is_empty d || ltb (length s) (length d)) ≡ false
    → is_empty s ≡ false
    → string_split s d ≡ split_loop (suc (length s)) s d
unfolding string_split
string_split_long s d h e = ground arith

-- Replacing a text is splitting at it and joining with the replacement, whatever the three are.
pub replace-join-split :
    (input search replace : Bytes)
    → string_replace input search replace ≡ string_join (string_split input search) replace
unfolding string_replace
replace-join-split [] search replace = unfold string_split string_join in refl
replace-join-split (c ∷ s) search replace =
    elim (Bool-cases (is_empty search || ltb (length (c ∷ s)) (length search))) [
      | inl plain ↦ unfold string_split string_join in ground (arith, is_empty-ne-nil search)
      | inr long ↦ elim (Bool-cases (same search replace)) [
        | inl equal ↦ ground (arith, same→≡ search replace equal, join-split (c ∷ s) search)
        | inr other ↦ ground (
          arith,
          replace_loop-join search (is_empty-ne-nil search (ground arith)) _ (c ∷ s) replace []
              (le_refl (suc (length (c ∷ s)))),
          string_split_long (c ∷ s) search long,
        )
      ]
    ]
