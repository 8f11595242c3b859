-- ===== src/Js/Int.antt =====
-- Whole numbers, for the replies of Redis that may be negative.
use nestjs_vibe_engine.Prelude.{ℕ, suc, Bool, false, ltb, nat_eq, ◌-◌, ◌+◌}

-- `negsuc n` is -(n + 1).
pub data ℤ : Type 0 where
  pos : ℕ → ℤ
  negsuc : ℕ → ℤ

unfoldable pub is_one : ℤ → Bool
is_one (pos n) = nat_eq n 1
is_one (negsuc n) = false

-- i > n
unfoldable pub exceeds : ℤ → ℕ → Bool
exceeds (pos m) n = ltb n m
exceeds (negsuc m) n = false

-- Math.max(0, n - i)
unfoldable pub headroom : ℕ → ℤ → ℕ
headroom n (pos m) = n - m
headroom n (negsuc m) = n + suc m
