-- ===== src/Helpers/Paths/Parents.antt =====
-- `get_parent_path` on every text: it is absolute, and shorter until the root is reached.
use asio_ftp.Base.{ℕ, zero, suc, ◌-◌, ◌≤◌, refl, [], ◌∷◌, Bytes, length, take, arith}
use asio_ftp.Helpers.Paths.{slash, is_slash_at, parent_scan, get_parent_path}
use asio_ftp.Helpers.Paths.Inverse.{IsAbsolute}

parent_scan_bounds :
    (path : Bytes) (i : ℕ) → (parent_scan path i ≤ i) × (1 ≤ i → 1 ≤ parent_scan path i)
unfolding parent_scan
parent_scan_bounds path zero = omega arith
parent_scan_bounds path (suc zero) = omega arith
parent_scan_bounds path (suc (suc i)) = ground (arith, parent_scan_bounds path (suc i))

length-take-le : (n : ℕ) (s : Bytes) → length (take n s) ≤ n
length-take-le zero s = omega arith
length-take-le (suc n) [] = omega arith
length-take-le (suc n) (c ∷ s) = omega (arith, length-take-le n s)

take-IsAbsolute : (n : ℕ) (s : Bytes) → 1 ≤ n → IsAbsolute s → IsAbsolute (take n s)
unfolding is_slash_at
take-IsAbsolute zero s h a = absurd (omega arith)
take-IsAbsolute (suc n) [] h a = cc
take-IsAbsolute (suc n) (c ∷ s) h a = a

root-IsAbsolute : IsAbsolute (slash ∷ [])
unfolding is_slash_at
root-IsAbsolute = refl

-- The parent of any text is an absolute path.
pub get_parent_path-IsAbsolute : (path : Bytes) → IsAbsolute (get_parent_path path)
unfolding get_parent_path
get_parent_path-IsAbsolute path = ground (
  arith,
  root-IsAbsolute,
  parent_scan_bounds path (length path - 1),
  take-IsAbsolute (parent_scan path (length path - 1)) path,
)

-- The parent of a text of two bytes or more is shorter than the text.
length-get_parent_path :
    (path : Bytes) → 2 ≤ length path → suc (length (get_parent_path path)) ≤ length path
unfolding get_parent_path
length-get_parent_path path h = ground (
  arith,
  parent_scan_bounds path (length path - 1),
  length-take-le (parent_scan path (length path - 1)) path,
)
