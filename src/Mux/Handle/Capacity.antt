-- ===== src/Mux/Handle/Capacity.antt =====
-- crates/spdy-mux/src/mux/handle.rs: the number of pairs of streams that are open.
use kube_portforward.Prelude.{
  ℕ, ◌+◌, ◌%◌, ◌^◌, ◌≤◌, ◌<◌, ◌≡◌, ◌⊎◌, inl, inr, ap, sym, ◌∙◌, true, false, Bool-cases, ◌||◌, leb,
  arith,
}
use kube_portforward.Error.{ok, err, Error, mux_closed, capacity_exhausted}
use kube_portforward.Mux.Channel.{Mpsc}
use kube_portforward.Mux.Handle.{
  MuxHandle, increment, operating_limit, hard_limit, release_pair, open_stream_pair,
}

module _ {mpsc : Mpsc} (h : MuxHandle mpsc) where
  -- A pair is reserved only on a live connection and only below both limits, and then the counter
  -- grows by one and is still within them; the counter is below 2^32 before.
  pub open_stream_pair_bounded :
      (max_frame_size : ℕ) (h' : MuxHandle mpsc)
      → h.active_pairs < 2 ^ 32
      → open_stream_pair h ≡ (ok max_frame_size, h')
      → (h'.active_pairs ≡ h.active_pairs + 1)
        × (h'.active_pairs ≤ operating_limit h)
        × (h'.active_pairs ≤ hard_limit h)
        × ((h.closed || h.goaway_received) ≡ false)
  unfolding open_stream_pair
  open_stream_pair_bounded max_frame_size h' small e =
      elim (Bool-cases (h.closed || h.goaway_received)) [
        | inl c ↦ absurd (ground arith)
        | inr c ↦ elim (Bool-cases (leb (operating_limit h) (h.active_pairs % 2 ^ 32))) [
          | inl o ↦ absurd (ground arith)
          | inr o ↦ elim (Bool-cases (leb (hard_limit h) (h.active_pairs % 2 ^ 32))) [
            | inl l ↦ absurd (ground arith)
            | inr l ↦ ground (arith, reserved e c o l)
          ]
        ]
      ]
    where
      reserved :
          open_stream_pair h ≡ (ok max_frame_size, h')
          → (h.closed || h.goaway_received) ≡ false
          → leb (operating_limit h) (h.active_pairs % 2 ^ 32) ≡ false
          → leb (hard_limit h) (h.active_pairs % 2 ^ 32) ≡ false
          → h'.active_pairs ≡ h.active_pairs + 1
      reserved e c o l =
          sym (ap (λ r. r.1.active_pairs) e) ∙ rw (open_stream_pair, c, o, l) (omega arith)

  -- A refused reservation leaves the handle as it was, the counter included, and says why: the
  -- connection is closed or going away, or one of the limits is reached.
  pub open_stream_pair_refused :
      (e : Error) (h' : MuxHandle mpsc)
      → h.active_pairs < 2 ^ 32
      → open_stream_pair h ≡ (err e, h')
      → (h' ≡ h)
        × (((e ≡ mux_closed) × ((h.closed || h.goaway_received) ≡ true))
            ⊎ (((e ≡ capacity_exhausted h.active_pairs (operating_limit h))
                  × (operating_limit h ≤ h.active_pairs))
                ⊎ ((e ≡ capacity_exhausted h.active_pairs (hard_limit h))
                    × (hard_limit h ≤ h.active_pairs))))
  unfolding open_stream_pair release_pair
  open_stream_pair_refused e h' small eq = elim (Bool-cases (h.closed || h.goaway_received)) [
    | inl c ↦ (ground (arith, undone), ground arith)
    | inr c ↦ elim (Bool-cases (leb (operating_limit h) (h.active_pairs % 2 ^ 32))) [
      | inl o ↦ (ground (arith, undone), inr (inl (ground arith)))
      | inr o ↦ elim (Bool-cases (leb (hard_limit h) (h.active_pairs % 2 ^ 32))) [
        | inl l ↦ (ground (arith, undone), inr (inr (ground arith)))
        | inr l ↦ absurd (ground arith)
      ]
    ]
  ]
    where
      undone : release_pair (record h { active_pairs = increment h.active_pairs }) ≡ h
      undone = ap (λ n. record h { active_pairs = n }) (omega arith)

  pub open_stream_pair_step :
      (max_frame_size : ℕ) (h' : MuxHandle mpsc)
      → open_stream_pair h ≡ (ok max_frame_size, h')
      → h' ≡ record h { active_pairs = increment h.active_pairs }
  unfolding open_stream_pair
  open_stream_pair_step max_frame_size h' e = elim (Bool-cases (h.closed || h.goaway_received)) [
    | inl c ↦ absurd (ground arith)
    | inr c ↦ elim (Bool-cases (leb (operating_limit h) (h.active_pairs % 2 ^ 32))) [
      | inl o ↦ absurd (ground arith)
      | inr o ↦ elim (Bool-cases (leb (hard_limit h) (h.active_pairs % 2 ^ 32))) [
        | inl l ↦ absurd (ground arith)
        | inr l ↦ ground arith
      ]
    ]
  ]
