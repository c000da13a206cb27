-- ===== src/Base/Search.antt =====
-- The loop `while (test(i)) i++;`, on fuel.
use Prim.Native.Nat.{ℕ, zero, suc, ◌+◌, ◌-◌, ◌≤◌, ◌<◌}
use mathlib.Core.Path.{◌≡◌, sym, ap, ◌∙◌}
use mathlib.Core.Logic.{inl, inr}
use mathlib.Core.Bool.{Bool, true, false}
use native.Mathlib.Omega.{arith}
use asio_ftp.Base.Tests.{◌==◌, ==_iff, Bool-cases, if◌then◌else◌}

unfoldable pub count_while : (ℕ → Bool) → ℕ → ℕ → ℕ
count_while test zero i = i
count_while test (suc fuel) i =
    let next = count_while test fuel (i + 1) in if test i then next else i

module _ (test : ℕ → Bool) where
  strictly : (i j : ℕ) → test i ≡ true → test j ≡ false → i ≤ j → i + 1 ≤ j
  strictly i j passed failed le = elim (Bool-cases (i == j)) [
    | inl is ↦ absurd (ground (arith, ap test ((==_iff i j).0 is), passed, failed))
    | inr is_not ↦ ground (arith, le, is_not)
  ]

  -- What the loop is to find: the first number from `i` on that fails the test.
  abbrev pub IsFirst : ℕ → ℕ → Type 0
  IsFirst i found =
      (test found ≡ false) × (i ≤ found) × ((k : ℕ) → i ≤ k → k < found → test k ≡ true)

  -- Where a number fails the test, fuel for the numbers before it is enough.
  pub count_while-IsFirst :
      (fuel i j : ℕ)
      → test j ≡ false
      → i ≤ j
      → j - i ≤ fuel
      → IsFirst i (count_while test fuel i) × (count_while test fuel i ≤ j)
  unfolding count_while
  count_while-IsFirst zero i j failed le enough =
      let is : i ≡ j = omega (arith, le, enough) in
      ((ap test is ∙ failed, omega arith, λ k a b. absurd (omega (arith, a, b))), le)
  count_while-IsFirst (suc fuel) i j failed le enough = elim (Bool-cases (test i)) [
    | inr here ↦ rw here ((here, omega arith, λ k a b. absurd (omega (arith, a, b))), le)
    | inl passed ↦
        let ((ends, from, before), bound) =
          count_while-IsFirst fuel (i + 1) j failed (strictly i j passed failed le)
            (omega (arith, enough)) in
        rw passed (
          (
            ends,
            omega (arith, from),
            λ k a b. elim (Bool-cases (i == k)) [
              | inl is ↦ ap test (sym ((==_iff i k).0 is)) ∙ passed
              | inr is_not ↦ before k (ground (arith, a, is_not)) b
            ],
          ),
          bound,
        )
  ]
