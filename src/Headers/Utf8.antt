-- ===== src/Headers/Utf8.antt =====
-- `String::from_utf8_lossy` of the standard library, on byte lists: each well-formed sequence is
-- kept, and each maximal ill-formed prefix becomes U+FFFD.
use kube_portforward.Prelude.{
  ◌≡◌, refl, ℕ, zero, suc, ◌+◌, [], ◌∷◌, ◌++◌, Bool, ltb, leb, ◌&&◌, ◌==◌, if◌then◌else◌, length,
  take, drop,
}
use kube_portforward.Wire.{Bytes}

abbrev within : ℕ → ℕ → ℕ → Bool
within lo hi b = leb lo b && leb b hi

-- How many bytes the lead byte announces (0 for no lead byte), and the range of the byte behind it.
abbrev width : ℕ → ℕ
width b =
    if ltb b 0x80
    then 1
    else if within 0xc2 0xdf b
    then 2
    else if within 0xe0 0xef b
    then 3
    else if within 0xf0 0xf4 b
    then 4
    else 0

abbrev second_ok : ℕ → ℕ → Bool
second_ok lead b =
    if lead == 0xe0
    then within 0xa0 0xbf b
    else if lead == 0xed
    then within 0x80 0x9f b
    else if lead == 0xf0
    then within 0x90 0xbf b
    else if lead == 0xf4
    then within 0x80 0x8f b
    else within 0x80 0xbf b

-- How many of the next `n` bytes continue the sequence.
continuation : ℕ → Bytes → ℕ
continuation zero bs = 0
continuation (suc n) [] = 0
continuation (suc n) (b ∷ bs) =
    let more = continuation n bs in if within 0x80 0xbf b then suc more else 0

-- How many bytes of the sequence that starts at `lead` are there, the lead included.
matched : ℕ → Bytes → ℕ
unfolding continuation
matched lead [] = 1
matched lead (b ∷ bs) = elim (width lead) [
  | zero ↦ 1
  | suc zero ↦ 1
  | suc (suc n) ↦ if second_ok lead b then 2 + continuation n bs else 1
]

abbrev replacement : Bytes
replacement = 0xef ∷ 0xbf ∷ 0xbd ∷ []

lossy_loop : ℕ → Bytes → Bytes
lossy_loop zero bs = []
lossy_loop (suc fuel) [] = []
lossy_loop (suc fuel) (lead ∷ bs) =
    let n = matched lead bs in
    let rest = lossy_loop fuel (drop n (lead ∷ bs)) in
    if n == width lead then take n (lead ∷ bs) ++ rest else replacement ++ rest

-- Each round drops a byte at least, so the length is enough fuel.
unfoldable pub from_utf8_lossy : Bytes → Bytes
unfolding lossy_loop matched
from_utf8_lossy bs = lossy_loop (length bs) bs

-- "aé", a stray continuation byte, "€" cut short, "b".
lossy_mixed :
    from_utf8_lossy (0x61 ∷ 0xc3 ∷ 0xa9 ∷ 0x80 ∷ 0xe2 ∷ 0x82 ∷ 0x62 ∷ [])
    ≡ 0x61 ∷ 0xc3 ∷ 0xa9 ∷ 0xef ∷ 0xbf ∷ 0xbd ∷ 0xef ∷ 0xbf ∷ 0xbd ∷ 0x62 ∷ []
unfolding from_utf8_lossy
lossy_mixed = refl
