-- ===== src/Session/Rounds.antt =====
-- crates/spdy-mux/src/session.rs: the indices that `pick_two` and the round-robin scan come to.
use native.Mathlib.Nat.{mod-lt, mod-eq_of_lt, mod-add-mod, mod-eq-sub-mod}
use native.Mathlib.Decide.{dec_lt}
use kube_portforward.Prelude.{
  ℕ, zero, suc, ◌+◌, ◌-◌, ◌*◌, ◌%◌, ◌^◌, ◌≤◌, ◌<◌, ◌≡◌, ◌≢◌, ◌⊎◌, inl, inr, sym, ap, ◌∙◌, arith,
}
use kube_portforward.Session.{pick_two}

next_distinct : (n a : ℕ) → 2 ≤ n → a < n → ((a + 1) % n < n) × (a ≢ (a + 1) % n)
next_distinct n a h lt = elim (dec_lt (a + 1) n) [
  | yes below ↦
      let same : (a + 1) % n ≡ a + 1 = mod-eq_of_lt below in
      (omega (arith, same), λ e. omega (arith, same))
  | no last ↦
      let zero_left : (a + 1) % n ≡ (a + 1 - n) % n = mod-eq-sub-mod (omega arith) in
      let none_left : (a + 1 - n) % n ≡ a + 1 - n = mod-eq_of_lt (omega arith) in
      (omega (arith, zero_left, none_left), λ e. omega (arith, zero_left, none_left))
]

-- The two picks are indices of the pool, and distinct.
pick_two_distinct :
    (pool_size seed : ℕ)
    → 2 ≤ pool_size
    → ((pick_two pool_size seed).0 < pool_size)
      × ((pick_two pool_size seed).1 < pool_size)
      × ((pick_two pool_size seed).0 ≢ (pick_two pool_size seed).1)
unfolding pick_two
pick_two_distinct pool_size seed h = ground (
  arith,
  mod-lt seed {m = pool_size} (omega arith),
  mod-lt ((seed * 6364136223846793005 % 2 ^ 64 + 1) % 2 ^ 64) {m = pool_size} (omega arith),
  next_distinct pool_size (seed % pool_size) h (mod-lt seed (omega arith)),
)

-- The round that comes to an index.
abbrev pub Round : ℕ → ℕ → ℕ → ℕ → Type 0
Round pool_size next rounds idx = (j : ℕ) × (j < rounds) × ((next + j) % pool_size ≡ idx)

pub Round-split :
    (pool_size next rounds idx : ℕ)
    → Round pool_size next (suc rounds) idx
    → (idx ≡ next % pool_size) ⊎ Round pool_size (next + 1) rounds idx
Round-split pool_size next rounds idx (zero, lt, e) =
    inl (sym e ∙ ap (λ (n : ℕ). n % pool_size) (omega arith))
Round-split pool_size next rounds idx (suc j, lt, e) =
    inr (j, omega arith, ap (λ (n : ℕ). n % pool_size) (omega arith) ∙ e)

-- As many rounds as there are indices come to all of them.
pub Round-covers : (pool_size next idx : ℕ) → idx < pool_size → Round pool_size next pool_size idx
Round-covers pool_size next idx lt =
    let r = next % pool_size in
    let below : r < pool_size = mod-lt next (omega arith) in
    elim (dec_lt idx r) [
      | yes before ↦ (
        idx + pool_size - r,
        omega arith,
        sym (mod-add-mod next pool_size (idx + pool_size - r))
            ∙ ap (λ (n : ℕ). n % pool_size) (omega arith)
            ∙ mod-eq-sub-mod {n = idx + pool_size} {m = pool_size} (omega arith)
            ∙ mod-eq_of_lt (omega arith)
            ∙ omega arith,
      )
      | no after ↦ (
        idx - r,
        omega arith,
        sym (mod-add-mod next pool_size (idx - r))
            ∙ ap (λ (n : ℕ). n % pool_size) (omega arith)
            ∙ mod-eq_of_lt lt,
      )
    ]
