-- ===== src/Wire.antt =====
-- Bytes and big-endian words, as `to_be_bytes`, `from_be_bytes`, masks and shifts produce them.
-- A byte is a number; that it is below 256 is a hypothesis where it matters.
pub mod Words
use kube_portforward.Prelude.{
  ℕ, ◌+◌, ◌*◌, ◌/◌, ◌%◌, ◌^◌, List, [], ◌∷◌, Bool, ◌==◌, get_or, if◌then◌else◌,
}

abbrev pub Bytes : Type 0
Bytes = List ℕ

-- `x.to_be_bytes()` of a u16 and of a u32.
abbrev pub u16_bytes : ℕ → Bytes
u16_bytes x = (x / 2 ^ 8 % 256) ∷ (x % 256) ∷ []

abbrev pub u32_bytes : ℕ → Bytes
u32_bytes x = (x / 2 ^ 24 % 256) ∷ (x / 2 ^ 16 % 256) ∷ (x / 2 ^ 8 % 256) ∷ (x % 256) ∷ []

-- `u16::from_be_bytes([bs[i], bs[i + 1]])`, and the same of four bytes. The callers have checked
-- the length, so the default is never read.
abbrev pub u16_at : Bytes → ℕ → ℕ
u16_at bs i = get_or bs i 0 * 2 ^ 8 + get_or bs (i + 1) 0

abbrev pub u32_at : Bytes → ℕ → ℕ
u32_at bs i =
    get_or bs i 0 * 2 ^ 24
    + get_or bs (i + 1) 0 * 2 ^ 16
    + get_or bs (i + 2) 0 * 2 ^ 8
    + get_or bs (i + 3) 0

-- `u32::from_be_bytes([0, bs[i], bs[i + 1], bs[i + 2]])`.
abbrev pub u24_at : Bytes → ℕ → ℕ
u24_at bs i = get_or bs i 0 * 2 ^ 16 + get_or bs (i + 1) 0 * 2 ^ 8 + get_or bs (i + 2) 0

-- `(flag << 24) | len`, where the flag is FLAG_FIN or 0: bit 24 is set and no other is touched.
unfoldable pub flags_len : Bool → ℕ → ℕ
flags_len fin len = if fin then (if (len / 2 ^ 24 % 2) == 1 then len else len + 2 ^ 24) else len

-- `x & 0x7FFF_FFFF` and `x & 0x00FF_FFFF`.
abbrev pub low31 : ℕ → ℕ
low31 x = x % 2 ^ 31

abbrev pub low24 : ℕ → ℕ
low24 x = x % 2 ^ 24
