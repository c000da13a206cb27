-- ===== src/Helpers/Strings/Parts.antt =====
-- Splitting a text at a delimiter of one byte gives back the parts that were joined with it.
use asio_ftp.Base.{
  take, drop, true, ◌↔◌, same→≡, same_refl, take-append-drop, length-drop, take_left, length-append,
  sym, ℕ, zero, suc, ◌<◌, ◌≡◌, refl, ◌≢◌, ◌∙◌, ap, false, none, some, List, [], ◌∷◌, ◌++◌, arith,
  Bytes, is_empty, find, begins_with, length, length-append, Lacks, All, take_left, drop_left,
  drop-add, ◌||◌, ltb,
}
use asio_ftp.Helpers.Strings.{split_loop, string_split, string_join, string_starts_with}
use asio_ftp.Helpers.Strings.Split.{
  join-cons, join_one, split_loop-none, split_loop-some, split_loop-ne-nil, join-split_loop,
  string_split_long,
}

pub find_of_Lacks : (b : ℕ) (p : Bytes) → Lacks b p → find p (b ∷ []) ≡ none
unfolding find begins_with
find_of_Lacks b [] h = refl
find_of_Lacks b (c ∷ p) h = ground (arith, h.0, find_of_Lacks b p h.1)

pub find_behind_Lacks :
    (b : ℕ) (p s : Bytes) → Lacks b p → find (p ++ b ∷ s) (b ∷ []) ≡ some (length p)
unfolding find begins_with
find_behind_Lacks b [] s h = ground arith
find_behind_Lacks b (c ∷ p) s h = ground (arith, h.0, find_behind_Lacks b p s h.1)

one_ne_nil : (b : ℕ) → (b ∷ []) ≢ []
one_ne_nil b e = cc

-- The first round behind a part.
split_loop_part :
    (b : ℕ) (p s : Bytes) (fuel : ℕ)
    → Lacks b p
    → split_loop (suc fuel) (p ++ b ∷ s) (b ∷ []) ≡ p ∷ split_loop fuel s (b ∷ [])
split_loop_part b p s fuel h =
    split_loop-some (b ∷ []) (one_ne_nil b) fuel (p ++ b ∷ s) (length p) (find_behind_Lacks b p s h)
    ∙ rw (take_left p (b ∷ s), drop-add (length p) 1 (p ++ b ∷ s), drop_left p (b ∷ s)) refl

split_loop-join :
    (b : ℕ) (p : Bytes) (ps : List Bytes) (fuel : ℕ)
    → All (Lacks b) (p ∷ ps)
    → length (string_join (p ∷ ps) (b ∷ [])) < fuel
    → split_loop fuel (string_join (p ∷ ps) (b ∷ [])) (b ∷ []) ≡ p ∷ ps
split_loop-join b p ps zero h lt = absurd (omega arith)
split_loop-join b p [] (suc fuel) h lt =
    ap (λ s. split_loop (suc fuel) s (b ∷ [])) (join_one p (b ∷ []))
    ∙ split_loop-none (b ∷ []) (one_ne_nil b) fuel p (find_of_Lacks b p h.0)
split_loop-join b p (q ∷ ps) (suc fuel) h lt =
    let tail = string_join (q ∷ ps) (b ∷ []) in
    let joined : string_join (p ∷ q ∷ ps) (b ∷ []) ≡ p ++ b ∷ tail =
      join-cons p (q ∷ ps) (b ∷ []) (λ e. cc e) in
    ap (λ s. split_loop (suc fuel) s (b ∷ [])) joined
    ∙ split_loop_part b p tail fuel h.0
    ∙ ap (λ s. p ∷ s)
        (split_loop-join b q ps fuel h.1
          (omega (arith, lt, ap length joined, length-append p (b ∷ tail))))

long_enough :
    (b : ℕ) (s : Bytes)
    → is_empty s ≡ false
    → (is_empty (b ∷ []) || ltb (length s) (length (b ∷ []))) ≡ false
long_enough b [] h = cc
long_enough b (c ∷ s) h = ground arith

-- Splitting what was joined with a delimiter of one byte gives the parts back, if none of them has
-- that byte and they do not join to the empty text.
pub split-join :
    (b : ℕ) (p : Bytes) (ps : List Bytes)
    → All (Lacks b) (p ∷ ps)
    → is_empty (string_join (p ∷ ps) (b ∷ [])) ≡ false
    → string_split (string_join (p ∷ ps) (b ∷ [])) (b ∷ []) ≡ p ∷ ps
split-join b p ps h filled =
    let s = string_join (p ∷ ps) (b ∷ []) in
    string_split_long s (b ∷ []) (long_enough b s filled) filled
    ∙ split_loop-join b p ps (suc (length s)) h (omega arith)

-- A text with no delimiter is one part.
pub split_one :
    (b : ℕ) (p : Bytes) → Lacks b p → is_empty p ≡ false → string_split p (b ∷ []) ≡ p ∷ []
split_one b p h filled =
    string_split_long p (b ∷ []) (long_enough b p filled) filled
    ∙ split_loop-none (b ∷ []) (one_ne_nil b) (length p) p (find_of_Lacks b p h)

append_filled : (b : ℕ) (p s : Bytes) → is_empty (p ++ b ∷ s) ≡ false
append_filled b [] s = refl
append_filled b (c ∷ p) s = refl

-- The first part of a text with a delimiter, and the parts behind it, which join to the rest.
pub split_first :
    (b : ℕ) (p s : Bytes)
    → Lacks b p
    → (parts : List Bytes) × (string_split (p ++ b ∷ s) (b ∷ []) ≡ p ∷ parts)
      × (parts ≢ [])
      × (string_join parts (b ∷ []) ≡ s)
split_first b p s h =
    let text = p ++ b ∷ s in
    let shorter : length s < length text = omega (arith, length-append p (b ∷ s)) in
    (
      split_loop (length text) s (b ∷ []),
      string_split_long text (b ∷ []) (long_enough b text (append_filled b p s))
            (append_filled b p s)
          ∙ split_loop_part b p s (length text) h,
      split_loop-ne-nil (b ∷ []) (one_ne_nil b) (length text) s (omega (arith, shorter)),
      join-split_loop (b ∷ []) (one_ne_nil b) (length text) s shorter,
    )

filled_of_length : (s : Bytes) → 0 < length s → is_empty s ≡ false
filled_of_length [] h = absurd (omega arith)
filled_of_length (c ∷ s) h = refl

length_of_filled : (s : Bytes) → is_empty s ≡ false → 0 < length s
length_of_filled [] h = absurd (cc h)
length_of_filled (c ∷ s) h = omega arith

starts_with→ :
    (s p : Bytes)
    → string_starts_with s p ≡ true
    → (rest : Bytes) × (s ≡ p ++ rest) × (is_empty rest ≡ false)
unfolding string_starts_with
starts_with→ s p h =
    let longer : length p < length s = ground arith in
    let agree : take (length p) s ≡ p = same→≡ (take (length p) s) p (ground arith) in
    (
      drop (length p) s,
      sym (take-append-drop (length p) s) ∙ ap (λ x. x ++ drop (length p) s) agree,
      filled_of_length (drop (length p) s) (omega (arith, length-drop (length p) s, longer)),
    )

→starts_with :
    (s p : Bytes)
    → (rest : Bytes) × (s ≡ p ++ rest) × (is_empty rest ≡ false)
    → string_starts_with s p ≡ true
unfolding string_starts_with
→starts_with s p (rest, e, filled) =
    let longer : length p < length (p ++ rest) =
      omega (arith, length-append p rest, length_of_filled rest filled) in
    rw (e, take_left p rest, same_refl p) (ground (arith, longer))

-- `string_starts_with` holds exactly of a text that is the prefix with at least one more byte: of two
-- equal texts it does not.
string_starts_with_iff :
    (s p : Bytes)
    → (string_starts_with s p ≡ true) ↔ ((rest : Bytes) × (s ≡ p ++ rest) × (is_empty rest ≡ false))
string_starts_with_iff s p = (starts_with→ s p, →starts_with s p)
