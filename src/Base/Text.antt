-- ===== src/Base/Text.antt =====
-- Texts as lists of bytes: literals, comparison, prefixes, and the C view of a text.
use Prim.Native.Nat.{ℕ, suc}
use Prim.Native.Char.{code}
use Prim.Native.String.{String}
use mathlib.Core.Path.{◌≡◌, refl}
use mathlib.Core.Logic.{◌≢◌, ◌↔◌}
use mathlib.Core.Bool.{Bool, true, false, ◌&&◌}
use mathlib.Core.Option.{Option, none, some}
use mathlib.Core.List.{List, [], ◌∷◌, ◌++◌}
use native.Mathlib.Omega.{arith}
use asio_ftp.Base.Tests.{◌==◌, if◌then◌else◌}
use asio_ftp.Base.Lists.{All, length, drop}

abbrev pub Bytes : Type 0
Bytes = List ℕ

-- The bytes of an ASCII literal.
abbrev pub codes : String → Bytes
codes String.[] = []
codes (String.◌∷◌ c s) = code c ∷ codes s

abbrev pub Lacks : ℕ → Bytes → Type 0
Lacks b = All (λ c. c ≢ b)

abbrev pub is_empty {ℓ} : {A : Type ℓ} → List A → Bool
is_empty [] = true
is_empty (x ∷ xs) = false

-- `operator==` of `std::string`.
unfoldable pub same : Bytes → Bytes → Bool
same [] [] = true
same [] (d ∷ t) = false
same (c ∷ s) [] = false
same (c ∷ s) (d ∷ t) = c == d && same s t

pub same_refl : (s : Bytes) → same s s ≡ true
unfolding same
same_refl [] = refl
same_refl (c ∷ s) = ground (arith, same_refl s)

pub same→≡ : (s t : Bytes) → same s t ≡ true → s ≡ t
unfolding same
same→≡ [] [] h = refl
same→≡ [] (d ∷ t) h = cc
same→≡ (c ∷ s) [] h = cc
same→≡ (c ∷ s) (d ∷ t) h = ground (arith, same→≡ s t)

pub same_iff : (s t : Bytes) → (same s t ≡ true) ↔ (s ≡ t)
same_iff s t = (same→≡ s t, λ e. rw e (same_refl t))

-- Whether the first text begins with the second.
unfoldable pub begins_with : Bytes → Bytes → Bool
begins_with s [] = true
begins_with [] (d ∷ p) = false
begins_with (c ∷ s) (d ∷ p) = c == d && begins_with s p

pub begins_with_append : (p s : Bytes) → begins_with (p ++ s) p ≡ true
unfolding begins_with
begins_with_append [] s = refl
begins_with_append (c ∷ p) s = ground (arith, begins_with_append p s)

pub begins_with→drop : (s p : Bytes) → begins_with s p ≡ true → s ≡ p ++ drop (length p) s
unfolding begins_with
begins_with→drop s [] h = refl
begins_with→drop [] (d ∷ p) h = cc
begins_with→drop (c ∷ s) (d ∷ p) h = ground (arith, begins_with→drop s p)

-- `std::string::find`: the first position at which the second text occurs in the first.
unfoldable pub find : Bytes → Bytes → Option ℕ
find [] d = if is_empty d then some 0 else none
find (c ∷ s) d =
    let rest = find s d in
    if begins_with (c ∷ s) d then some 0 else elim rest [ none ↦ none | some i ↦ some (suc i) ]

-- What a reader of a C string sees: the bytes before the first NUL.
unfoldable pub c_string : Bytes → Bytes
c_string [] = []
c_string (c ∷ s) = if c == 0 then [] else c ∷ c_string s

pub c_string_of_Lacks : (s : Bytes) → Lacks 0 s → c_string s ≡ s
unfolding c_string
c_string_of_Lacks [] h = refl
c_string_of_Lacks (c ∷ s) h = ground (arith, c_string_of_Lacks s h.1)
