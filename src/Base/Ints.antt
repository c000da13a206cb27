-- ===== src/Base/Ints.antt =====
-- The signed integers, and the conversions between those of a machine.
use Prim.Native.Nat.{ℕ, zero, suc, ◌-◌, ◌%◌, ◌^◌}
use asio_ftp.Base.Tests.{ltb, if◌then◌else◌}

-- The second constructor is for the numbers below zero: `negsuc n` is -(n + 1).
pub data ℤ : Type 0 where
  pos negsuc : ℕ → ℤ

abbrev pub succ : ℤ → ℤ
succ (pos n) = pos (suc n)
succ (negsuc zero) = pos 0
succ (negsuc (suc n)) = negsuc n

abbrev pub pred : ℤ → ℤ
pred (pos zero) = negsuc 0
pred (pos (suc n)) = pos n
pred (negsuc n) = negsuc (suc n)

-- A conversion to an unsigned integer of w bits keeps what is left modulo 2 ^ w.
unfoldable pub to_unsigned : ℕ → ℤ → ℕ
to_unsigned w (pos n) = n % 2 ^ w
to_unsigned w (negsuc n) = (2 ^ w - 1) - n % 2 ^ w

-- A conversion to a signed integer of w + 1 bits: what is left from 2 ^ w on is below zero.
abbrev pub signed_of : ℕ → ℕ → ℤ
signed_of w n = if ltb n (2 ^ w) then pos n else negsuc ((2 ^ suc w - 1) - n)

unfoldable pub to_signed : ℕ → ℤ → ℤ
unfolding to_unsigned
to_signed w z = signed_of w (to_unsigned (suc w) z)

-- The rounds of `for (int i = 0; i < n; i++)`.
abbrev pub rounds : ℤ → ℕ
rounds (pos n) = n
rounds (negsuc n) = 0
