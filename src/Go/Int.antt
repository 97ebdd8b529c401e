-- ===== src/Go/Int.antt =====
-- Go's int where a value may be negative: `negsuc n` is -(n + 1).
use candi_plugin.Base.{ℕ}

pub data ℤ : Type 0 where
  pos : ℕ → ℤ
  negsuc : ℕ → ℤ
