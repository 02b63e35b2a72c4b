-- ===== src/Prelude/Int.antt =====
-- The integers: `negsuc n` is -(n + 1).
use Prim.Native.Nat.{ℕ, suc, ◌+◌, ◌-◌}

pub data ℤ : Type 0 where
  pos : ℕ → ℤ
  negsuc : ℕ → ℤ

-- `max(n + d, 0)`
abbrev pub shift : ℕ → ℤ → ℕ
shift n (pos d) = n + d
shift n (negsuc d) = n - suc d
