-- ===== src/Config/Layout.antt =====
-- src/config/parser.cpp: what the line breaks and the indentation of `make_default_json` do to a JSON
-- text, and what the reader's lines are of it.
use asio_ftp.Base.{
  ℕ, zero, suc, ℤ, rounds, ◌==◌, ◌≡◌, refl, ap, ◌∙◌, Bool, false, ◌||◌, true, List, [], ◌∷◌, ◌++◌,
  All, Bool-cases, inl, inr, subst, sym, append_assoc, append-nil, Bytes, codes, if◌then◌else◌,
  arith,
}
use asio_ftp.Config.Defaults.{
  indentation, opens_level, closes_level, level_behind, written_for, beautify,
}
use asio_ftp.Config.Reader.{text_lines}

-- Where a JSON text is: between its strings, in one, or behind a backslash in one.
pub data Place : Type 0 where
  outside inside escaped : Place

unfoldable pub place_behind : Place → ℕ → Place
place_behind outside c = if c == b'"' then inside else outside
place_behind inside c = if c == b'"' then outside else if c == b'\\' then escaped else inside
place_behind escaped c = inside

abbrev pub is_blank : ℕ → Bool
is_blank c = c == b' ' || c == b'\n' || c == b'\r' || c == b'\t'

-- The characters with a meaning of their own between the tokens of a JSON text.
abbrev pub is_structural : ℕ → Bool
is_structural c = opens_level c || closes_level c || c == b',' || c == b':'

abbrev pub AllBlank : Bytes → Type 0
AllBlank = All (λ c. is_blank c ≡ true)

-- The second text is the first with white space before or behind brackets, commas and colons that are
-- not in a string, and with nothing else added.
pub data Respaced : Place → Bytes → Bytes → Type 0 where
  done : {place : Place} → Respaced place [] []
  char :
      {place : Place} {s t : Bytes} (c : ℕ)
      → Respaced (place_behind place c) s t
      → Respaced place (c ∷ s) (c ∷ t)
  spaced :
      {s t : Bytes} (before behind : Bytes) (c : ℕ)
      → is_structural c ≡ true
      → AllBlank before
      → AllBlank behind
      → Respaced outside s t
      → Respaced outside (c ∷ s) (before ++ (c ∷ (behind ++ t)))

-- The characters on which the layout turns.
abbrev pub is_laid_out : ℕ → Bool
is_laid_out c = opens_level c || closes_level c || c == b',' || c == b':' || c == b'\n'

-- No string of the text has one, and there is no line break between the tokens.
abbrev pub IsQuietAt : Place → ℕ → Type 0
IsQuietAt outside c = (c == b'\n') ≡ false
IsQuietAt _ c = is_laid_out c ≡ false

abbrev pub IsQuiet : Place → Bytes → Type 0
IsQuiet place [] = Unit
IsQuiet place (c ∷ s) = IsQuietAt place c × IsQuiet (place_behind place c) s

-- The lines, one behind the other.
abbrev pub joined : List Bytes → Bytes
joined [] = []
joined (line ∷ lines) = line ++ joined lines

abbrev pub without_breaks : Bytes → Bytes
without_breaks [] = []
without_breaks (c ∷ s) = if c == b'\n' then without_breaks s else c ∷ without_breaks s

joined-lines : (line s : Bytes) → joined (text_lines line s) ≡ line ++ without_breaks s
unfolding text_lines
joined-lines line [] = ground (arith, append-nil line)
joined-lines line (c ∷ s) = ground (
  arith,
  joined-lines [] s,
  joined-lines (line ++ c ∷ []) s,
  append_assoc line (c ∷ []) (without_breaks s),
)

without_append : (s t : Bytes) → without_breaks (s ++ t) ≡ without_breaks s ++ without_breaks t
without_append [] t = refl
without_append (c ∷ s) t = ground (arith, without_append s t)

-- One step of indentation is white space with no line break.
without_indentation : (n : ℕ) → without_breaks (indentation n) ≡ indentation n
unfolding indentation
without_indentation zero = refl
without_indentation (suc n) = rw (without_indentation n) refl

AllBlank-indentation : (n : ℕ) → AllBlank (indentation n)
unfolding indentation
AllBlank-indentation zero = tt
AllBlank-indentation (suc n) = (refl, (refl, (refl, (refl, AllBlank-indentation n))))

-- One character, and what is written for it.
quiet_written :
    (indent : ℤ) (c : ℕ) → is_laid_out c ≡ false → without_breaks (written_for indent c) ≡ c ∷ []
unfolding written_for
quiet_written indent c q = ground (arith, q)

-- What is written for a structural character is that character, with margins.
margins :
    (indent : ℤ) (c : ℕ)
    → is_structural c ≡ true
    → (before : Bytes) × (behind : Bytes) × AllBlank before
      × AllBlank behind
      × (without_breaks (written_for indent c) ≡ before ++ c ∷ behind)
unfolding written_for
margins indent c h =
    let n = rounds (level_behind indent c) in
    let margin = indentation n in
    let blank : AllBlank margin = AllBlank-indentation n in
    let whole = without_indentation n in
    elim (Bool-cases (opens_level c)) [
      | inl opens ↦ ([], margin, tt, blank, ground (arith, whole))
      | inr not_open ↦ elim (Bool-cases (closes_level c)) [
        | inl closes ↦
            (margin, [], blank, tt, ground (arith, whole, without_append margin (c ∷ [])))
        | inr not_close ↦ elim (Bool-cases (c == b',')) [
          | inl comma ↦ ([], margin, tt, blank, ground (arith, whole))
          | inr not_comma ↦ ([], codes " ", tt, (refl, tt), ground arith)
        ]
      ]
    ]

plain_written :
    (indent : ℤ) (c : ℕ)
    → is_structural c ≡ false
    → (c == b'\n') ≡ false
    → without_breaks (written_for indent c) ≡ c ∷ []
unfolding written_for
plain_written indent c h other = ground arith

-- A structural character is no quotation mark.
pub place_behind-structural : (c : ℕ) → is_structural c ≡ true → place_behind outside c ≡ outside
unfolding place_behind
place_behind-structural c h = ground arith

written-Respaced :
    (place : Place) (indent : ℤ) (c : ℕ) (s t : Bytes)
    → IsQuietAt place c
    → Respaced (place_behind place c) s t
    → Respaced place (c ∷ s) (without_breaks (written_for indent c) ++ t)
written-Respaced outside indent c s t q r = elim (Bool-cases (is_structural c)) [
  | inl h ↦
      let (before, behind, blank, blank', e) = margins indent c h in
      let whole : without_breaks (written_for indent c) ++ t ≡ before ++ (c ∷ (behind ++ t)) =
        ap (λ x. x ++ t) e ∙ append_assoc before (c ∷ behind) t in
      subst (Respaced outside (c ∷ s)) (sym whole) (
        spaced before behind c h blank blank'
          (subst (λ p. Respaced p s t) (place_behind-structural c h) r))
  | inr h ↦
      subst (λ x. Respaced outside (c ∷ s) (x ++ t)) (sym (plain_written indent c h q)) (char c r)
]
written-Respaced inside indent c s t q r =
    subst (λ x. Respaced inside (c ∷ s) (x ++ t)) (sym (quiet_written indent c q)) (char c r)
written-Respaced escaped indent c s t q r =
    subst (λ x. Respaced escaped (c ∷ s) (x ++ t)) (sym (quiet_written indent c q)) (char c r)

laid_out-Respaced :
    (s : Bytes) (place : Place) (indent : ℤ)
    → IsQuiet place s
    → Respaced place s (without_breaks (beautify indent s))
unfolding beautify
laid_out-Respaced [] place indent q = done
laid_out-Respaced (c ∷ s) place indent q =
    let rest = without_breaks (beautify (level_behind indent c) s) in
    subst (Respaced place (c ∷ s))
      (sym (without_append (written_for indent c) (beautify (level_behind indent c) s)))
      (written-Respaced place indent c s rest q.0
        (laid_out-Respaced s (place_behind place c) (level_behind indent c) q.1))

-- Of a JSON text whose strings hold no bracket, comma, colon or line break, and which has no line break
-- between its tokens, laid out from any level of indentation on: the lines that the reader of the file
-- sees are, one behind the other, the same text with white space added only before or behind brackets,
-- commas and colons that are not in a string.
pub lines-beautify :
    (s : Bytes) (indent : ℤ)
    → IsQuiet outside s
    → Respaced outside s (joined (text_lines [] (beautify indent s)))
lines-beautify s indent q =
    subst (Respaced outside s) (sym (joined-lines [] (beautify indent s)))
      (laid_out-Respaced s outside indent q)
