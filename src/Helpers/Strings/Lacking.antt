-- ===== src/Helpers/Strings/Lacking.antt =====
-- Texts without some byte, as the functions on texts see them.
use asio_ftp.Base.{
  ℕ, zero, suc, ◌≡◌, sym, subst, List, [], ◌∷◌, Bytes, All, All-append, Lacks, find, begins_with,
  none, take, drop, arith,
}
use asio_ftp.Helpers.Strings.{string_join}
use asio_ftp.Helpers.Strings.Split.{join-cons}

pub Lacks-of_find : (b : ℕ) (s : Bytes) → find s (b ∷ []) ≡ none → Lacks b s
unfolding find begins_with
Lacks-of_find b [] h = tt
Lacks-of_find b (c ∷ s) h = (λ e. ground arith, Lacks-of_find b s (ground arith))

pub Lacks-string_join :
    (b : ℕ) (parts : List Bytes) (separator : Bytes)
    → All (Lacks b) parts
    → Lacks b separator
    → Lacks b (string_join parts separator)
unfolding string_join
Lacks-string_join b [] separator h k = tt
Lacks-string_join b (part ∷ []) separator h k = h.0
Lacks-string_join b (part ∷ next ∷ parts) separator h k =
    subst (Lacks b) (sym (join-cons part (next ∷ parts) separator (λ e. cc e))) (
      All-append _ part _ h.0
        (All-append _ separator _ k (Lacks-string_join b (next ∷ parts) separator h.1 k)))

pub Lacks-take : (b n : ℕ) (s : Bytes) → Lacks b s → Lacks b (take n s)
Lacks-take b zero s h = tt
Lacks-take b (suc n) [] h = tt
Lacks-take b (suc n) (c ∷ s) h = (h.0, Lacks-take b n s h.1)

pub Lacks-drop : (b n : ℕ) (s : Bytes) → Lacks b s → Lacks b (drop n s)
Lacks-drop b zero s h = h
Lacks-drop b (suc n) [] h = tt
Lacks-drop b (suc n) (c ∷ s) h = Lacks-drop b n s h.1
