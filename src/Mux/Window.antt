-- ===== src/Mux/Window.antt =====
-- crates/spdy-mux/src/mux/window.rs: a send window, an atomic i64. Each method is one atomic step;
-- for `consume` that step is the compare-exchange that succeeds. Wakers are left out.
use kube_portforward.Prelude.{
  ℕ, suc, ◌+◌, ◌-◌, ◌^◌, ◌≤◌, ◌<◌, ◌≡◌, ◌⊎◌, inl, inr, refl, Bool-cases, Bool, true, false, ltb,
  ◌==◌, ◌&&◌, if◌then◌else◌, arith, List, [], ◌∷◌, Option, none, some,
}
use kube_portforward.Prelude.Int.{ℤ, pos, negsuc, pos_part, neg_part, sub_ℕ, eq_of_parts}

-- i64::MIN, which marks a closed window.
abbrev pub poisoned : ℤ
poisoned = negsuc (2 ^ 63 - 1)

-- Two's-complement wrap-around of a sum or difference of two i64 values.
abbrev wrap_i64 : ℤ → ℤ
wrap_i64 (pos n) = if ltb n (2 ^ 63) then pos n else sub_ℕ n (2 ^ 64)
wrap_i64 (negsuc n) = if ltb n (2 ^ 63) then negsuc n else sub_ℕ (2 ^ 64) (suc n)

-- `SendWindow::new(initial)`: a u32 always fits.
abbrev pub new_window : ℕ → ℤ
new_window initial = pos initial

unfoldable pub is_closed : ℤ → Bool
is_closed (pos n) = false
is_closed (negsuc n) = n == 2 ^ 63 - 1

-- `available().max(0) as usize`.
abbrev pub available : ℤ → ℕ
available w = pos_part w

-- `fetch_add`, and the subtraction of `consume`.
unfoldable pub fetch_add : ℤ → ℤ → ℤ
fetch_add w delta = wrap_i64 (sub_ℕ (pos_part w + pos_part delta) (neg_part w + neg_part delta))

unfoldable pub debit : ℤ → ℕ → ℤ
debit w n = wrap_i64 (sub_ℕ (pos_part w) (neg_part w + n))

unfoldable pub consume : ℤ → ℕ → Bool × ℤ
unfolding is_closed debit
consume w n = if is_closed w then (false, w) else (true, debit w n)

-- The loop itself: in each round, the value that was loaded and the value that the
-- compare-exchange met, with whatever other threads did in between. `none`: still trying.
unfoldable pub consume_loop : List (ℤ × ℤ) → ℕ → Option (Bool × ℤ)
unfolding is_closed debit
consume_loop [] n = none
consume_loop ((cur, met) ∷ rounds) n =
    let rest = consume_loop rounds n in
    if is_closed cur
    then some (false, cur)
    else if (pos_part cur == pos_part met) && (neg_part cur == neg_part met)
    then some (true, debit met n)
    else rest

unfoldable pub replenish : ℤ → ℕ → ℤ
unfolding fetch_add
replenish w delta = fetch_add w (pos delta)

unfoldable pub apply_delta : ℤ → ℤ → ℤ
unfolding fetch_add
apply_delta w delta = fetch_add w delta

-- `close`.
abbrev pub closed_window : ℤ
closed_window = poisoned

is_closed_iff : (w : ℤ) → is_closed w ≡ true → w ≡ poisoned
unfolding is_closed
is_closed_iff (pos n) h = cc
is_closed_iff (negsuc n) h = ground arith

-- Within i64 the arithmetic does not wrap.
debit_exact : (w : ℕ) (n : ℕ) → n ≤ w → w < 2 ^ 63 → debit (pos w) n ≡ pos (w - n)
unfolding debit
debit_exact w n h k = ground arith

replenish_exact : (w delta : ℕ) → w + delta < 2 ^ 63 → replenish (pos w) delta ≡ pos (w + delta)
unfolding replenish
replenish_exact w delta h = ground arith

-- A WINDOW_UPDATE that comes after `close` would open the window again.
replenish-poisoned :
    (delta : ℕ) → 0 < delta → delta < 2 ^ 32 → is_closed (replenish poisoned delta) ≡ false
unfolding replenish is_closed
replenish-poisoned delta h k = ground arith

-- The window had the value `w` in one of the rounds.
abbrev pub Had : ℤ → List (ℤ × ℤ) → Type 0
Had w [] = ⊥
Had w ((cur, met) ∷ rounds) = ((w ≡ cur) ⊎ (w ≡ met)) ⊎ Had w rounds

-- Whatever other threads do to the window between the load and the compare-exchange of each round,
-- a `consume` that returns has the result and the effect of one atomic step, on a value that the
-- window had in one of the rounds.
consume_loop-consume :
    (rounds : List (ℤ × ℤ)) (n : ℕ) (r : Bool × ℤ)
    → consume_loop rounds n ≡ some r
    → (w : ℤ) × Had w rounds × (r ≡ consume w n)
unfolding consume_loop consume
consume_loop-consume [] n r h = cc
consume_loop-consume ((cur, met) ∷ rounds) n r h = elim (Bool-cases (is_closed cur)) [
  | inl c ↦ (cur, inl (inl refl), ground arith)
  | inr o ↦ elim (Bool-cases ((pos_part cur == pos_part met) && (neg_part cur == neg_part met))) [
    | inl same ↦ (met, inl (inr refl), won o same)
    | inr other ↦ later (consume_loop-consume rounds n r (ground arith))
  ]
]
  where
    won :
        is_closed cur ≡ false
        → ((pos_part cur == pos_part met) && (neg_part cur == neg_part met)) ≡ true
        → r ≡ consume met n
    won o same = ground (arith, eq_of_parts cur met)

    later :
        (w : ℤ) × Had w rounds × (r ≡ consume w n)
        → (w : ℤ) × Had w ((cur, met) ∷ rounds) × (r ≡ consume w n)
    later (w, had, e) = (w, inr had, e)
