-- ===== src/Database/Memory/Like.antt =====
-- The operator LIKE on bytes: `%` stands for any text and `_` for any byte, and ASCII letters of
-- either case are alike.
use asio_ftp.Base.{
  ℕ, ◌+◌, ◌≡◌, refl, Bool, true, false, ◌&&◌, ◌||◌, [], ◌∷◌, ◌++◌, Bytes, is_empty, ◌==◌, ltb,
  if◌then◌else◌, arith, Bool-cases, inl, inr,
}
use asio_ftp.Database.Schema.{percent}

any_suffix : (Bytes → Bool) → Bytes → Bool
any_suffix f [] = f []
any_suffix f (x ∷ s) = f (x ∷ s) || any_suffix f s

fold_case : ℕ → ℕ
fold_case c = if ltb c b'A' || ltb b'Z' c then c else c + 32

one_byte : ℕ → (Bytes → Bool) → Bytes → Bool
unfolding fold_case
one_byte c rest [] = false
one_byte c rest (x ∷ s) = (c == b'_' || fold_case c == fold_case x) && rest s

matches : Bytes → Bytes → Bool
unfolding any_suffix one_byte
matches [] s = is_empty s
matches (c ∷ pattern) s =
    if c == percent then any_suffix (matches pattern) s else one_byte c (matches pattern) s

unfoldable pub like : Bytes → Bytes → Bool
unfolding matches
like s pattern = matches pattern s

any_suffix_self : (f : Bytes → Bool) (s : Bytes) → f s ≡ true → any_suffix f s ≡ true
unfolding any_suffix
any_suffix_self f [] h = h
any_suffix_self f (x ∷ s) h = rw h

any_suffix_later :
    (f : Bytes → Bool) (x : ℕ) (s : Bytes) → any_suffix f s ≡ true → any_suffix f (x ∷ s) ≡ true
unfolding any_suffix
any_suffix_later f x s h = ground arith

matches_any : (s : Bytes) → any_suffix is_empty s ≡ true
unfolding any_suffix
matches_any [] = refl
matches_any (x ∷ s) = matches_any s

one_byte_same :
    (c : ℕ) (rest : Bytes → Bool) (s : Bytes) → rest s ≡ true → one_byte c rest (c ∷ s) ≡ true
unfolding one_byte
one_byte_same c rest s h = ground arith

matches_nil : (s : Bytes) → matches [] s ≡ is_empty s
unfolding matches
matches_nil s = refl

any_suffix_nil : (s : Bytes) → any_suffix (matches []) s ≡ true
unfolding any_suffix matches
any_suffix_nil s = matches_any s

matches-cons :
    (c : ℕ) (p s : Bytes)
    → matches (c ∷ p) s
      ≡ (if c == percent then any_suffix (matches p) s else one_byte c (matches p) s)
unfolding matches
matches-cons c p s = refl

matches_prefix : (p s : Bytes) → matches (p ++ percent ∷ []) (p ++ s) ≡ true
matches_prefix [] s = rw matches-cons (any_suffix_nil s)
matches_prefix (c ∷ p) s =
    let rest = matches_prefix p s in
    elim (Bool-cases (c == percent)) [
      | inl any ↦
          rw (matches-cons, any)
            (any_suffix_later (matches (p ++ percent ∷ [])) c (p ++ s)
              (any_suffix_self (matches (p ++ percent ∷ [])) (p ++ s) rest))
      | inr one ↦
          rw (matches-cons, one) (one_byte_same c (matches (p ++ percent ∷ [])) (p ++ s) rest)
    ]

any_suffix_longer :
    (f : Bytes → Bool) (s t : Bytes)
    → ((r : Bytes) → f r ≡ true → f (r ++ t) ≡ true)
    → any_suffix f s ≡ true
    → any_suffix f (s ++ t) ≡ true
unfolding any_suffix
any_suffix_longer f [] t h e = any_suffix_self f t (h [] e)
any_suffix_longer f (x ∷ s) t h e = ground (arith, h (x ∷ s), any_suffix_longer f s t h)

one_byte_longer :
    (c : ℕ) (f : Bytes → Bool) (s t : Bytes)
    → ((r : Bytes) → f r ≡ true → f (r ++ t) ≡ true)
    → one_byte c f s ≡ true
    → one_byte c f (s ++ t) ≡ true
unfolding one_byte
one_byte_longer c f [] t h e = cc
one_byte_longer c f (x ∷ s) t h e = ground (arith, h s)

matches_longer :
    (p s t : Bytes)
    → matches (p ++ percent ∷ []) s ≡ true
    → matches (p ++ percent ∷ []) (s ++ t) ≡ true
matches_longer [] s t h = matches_prefix [] (s ++ t)
matches_longer (c ∷ p) s t h =
    let step = λ (r : Bytes). matches_longer p r t in
    let rest = p ++ percent ∷ [] in
    elim (Bool-cases (c == percent)) [
      | inl any ↦
          rw (matches-cons, any)
            (any_suffix_longer (matches rest) s t step (rw (matches-cons c rest s, any) at h))
      | inr one ↦
          rw (matches-cons, one)
            (one_byte_longer c (matches rest) s t step (rw (matches-cons c rest s, one) at h))
    ]

pub like_prefix : (p s : Bytes) → like (p ++ s) (p ++ percent ∷ []) ≡ true
unfolding like
like_prefix p s = matches_prefix p s

pub like_longer :
    (p s t : Bytes) → like s (p ++ percent ∷ []) ≡ true → like (s ++ t) (p ++ percent ∷ []) ≡ true
unfolding like
like_longer p s t h = matches_longer p s t h
