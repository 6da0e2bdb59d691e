-- ===== src/Wire/Words.antt =====
-- Words and their bytes.
use kube_portforward.Prelude.{ℕ, ◌^◌, ◌<◌, ◌≡◌, ◌++◌, Bool, arith}
use kube_portforward.Wire.{Bytes, u32_bytes, u32_at, flags_len, low24}

pub u32_at-u32_bytes : (x : ℕ) (rest : Bytes) → x < 2 ^ 32 → u32_at (u32_bytes x ++ rest) 0 ≡ x
u32_at-u32_bytes x rest h = omega arith

-- The length and the FIN flag share a word and do not disturb one another.
flags_len-low24 : (fin : Bool) (n : ℕ) → n < 2 ^ 24 → low24 (flags_len fin n) ≡ n
unfolding flags_len
flags_len-low24 fin n h = ground arith
