-- ===== src/Session/Limits.antt =====
-- crates/spdy-mux/src/session.rs: the figures that a session gives of itself, beside what happens when
-- a pair is opened on it.
use kube_portforward.Prelude.{
  ℕ, zero, suc, ◌+◌, ◌*◌, ◌%◌, ◌^◌, ◌≤◌, ◌<◌, ◌≡◌, ◌⊎◌, refl, ap, subst, ◌∙◌, List, [], ◌∷◌, Option,
  some, Bool, true, false, ◌||◌, ◌&&◌, leb, length, get_elem?, if◌then◌else◌, arith,
}
use kube_portforward.Error.{Result, ok, err, Error, mux_closed, capacity_exhausted}
use kube_portforward.Mux.Channel.{Mpsc}
use kube_portforward.Mux.Handle.{MuxHandle, hard_limit, operating_limit, operating_capacity}
use kube_portforward.Session.{
  Session, record_rtt, preferred, or_else, take_next, try_open, try_handle, try_second,
  open_stream_pair, in_use, capacity, total_operating_capacity, operating_capacity_of, is_full,
  all_full,
}
use kube_portforward.Mux.Handle
use kube_portforward.Session.Tries.{IsSmall}
use kube_portforward.Session.Outcomes.{Opened, on_handle, exhausted, going_away}
use kube_portforward.Session.Opens.{open_stream_pair-Opened}

-- A measurement above the estimate replaces it; one that is not leaves an estimate that is no larger
-- and at least nine tenths of it, but for the rounding of two divisions.
record_rtt_bounds :
    (elapsed prev : ℕ)
    → (prev < elapsed → record_rtt elapsed prev ≡ elapsed)
      × (elapsed ≤ prev
          → (record_rtt elapsed prev ≤ prev) × (prev * 9 ≤ record_rtt elapsed prev * 10 + 81))
unfolding record_rtt
record_rtt_bounds elapsed prev = (λ h. ground arith, λ h. (ground arith, ground arith))

module _ {mpsc : Mpsc} where
  -- Every handle is closed, or alive and at its operating limit.
  abbrev pub AtLimit : List (MuxHandle mpsc) → Type 0
  AtLimit [] = Unit
  AtLimit (mux ∷ pool) =
      ((mux.closed ≡ true)
        ⊎ ((mux.goaway_received ≡ false) × (operating_limit mux ≤ mux.active_pairs)))
      × AtLimit pool

  AtLimit-get_elem? :
      (pool : List (MuxHandle mpsc)) (idx : ℕ) (mux : MuxHandle mpsc)
      → AtLimit pool
      → get_elem? pool idx ≡ some mux
      → (mux.closed ≡ true)
        ⊎ ((mux.goaway_received ≡ false) × (operating_limit mux ≤ mux.active_pairs))
  AtLimit-get_elem? [] idx mux h e = cc
  AtLimit-get_elem? (m ∷ pool) zero mux (here, h) e =
      let same : m ≡ mux = cc in
      subst
        (λ (x : MuxHandle mpsc).
          (x.closed ≡ true) ⊎ ((x.goaway_received ≡ false) × (operating_limit x ≤ x.active_pairs)))
        same here
  AtLimit-get_elem? (m ∷ pool) (suc idx) mux (here, h) e = AtLimit-get_elem? pool idx mux h e

  no_operating_capacity :
      (pool : List (MuxHandle mpsc)) → AtLimit pool → operating_capacity_of pool ≡ 0
  unfolding operating_capacity_of operating_capacity
  no_operating_capacity [] h = refl
  no_operating_capacity (m ∷ pool) (here, h) = ground (arith, no_operating_capacity pool h)

  not_full :
      (pool : List (MuxHandle mpsc)) (idx : ℕ) (mux : MuxHandle mpsc)
      → get_elem? pool idx ≡ some mux
      → mux.closed ≡ false
      → mux.active_pairs < hard_limit mux
      → all_full pool ≡ false
  unfolding all_full
  not_full [] idx mux e live room = cc
  not_full (m ∷ pool) zero mux e live room =
      let same : mux ≡ m = cc in
      subst
        (λ (x : MuxHandle mpsc).
          ((x.closed || leb (hard_limit x) x.active_pairs) && all_full pool) ≡ false)
        same (ground arith)
  not_full (m ∷ pool) (suc idx) mux e live room = ground (arith, not_full pool idx mux e live room)

  opened_nothing :
      (s s' : Session mpsc) (r : Result ℕ)
      → AtLimit s.pool
      → Opened (λ idx. idx < length s.pool) s r s'
      → (r ≡ err (capacity_exhausted (in_use s) (capacity s % 2 ^ 32))) × (s'.pool ≡ s.pool)
  opened_nothing s s' r h (on_handle idx mux mux' frame_size at opens e p) = absurd (
      ground
        (arith, AtLimit-get_elem? s.pool idx mux h at, opens.live, opens.more, opens.operating))
  opened_nothing s s' r h (exhausted why e p) = (e, p)
  opened_nothing s s' r h (going_away idx mux at live away e p) =
      absurd (ground (arith, AtLimit-get_elem? s.pool idx mux h at))

  -- Where every handle that is not closed is at its operating limit, opening a pair fails for want
  -- of capacity and the operating capacity that the session gives is zero; yet the session does not
  -- count as full as long as one handle that is not closed is below its hard limit.
  pub open_stream_pair-AtLimit :
      (elapsed : ℕ) (s : Session mpsc)
      → IsSmall s.pool
      → s.next + length s.pool + 1 < 2 ^ 64
      → AtLimit s.pool
      → ((open_stream_pair elapsed s).0 ≡ err (capacity_exhausted (in_use s) (capacity s % 2 ^ 32)))
        × ((open_stream_pair elapsed s).1.pool ≡ s.pool)
        × (total_operating_capacity s ≡ 0)
        × ((idx : ℕ) (mux : MuxHandle mpsc)
            → get_elem? s.pool idx ≡ some mux
            → mux.closed ≡ false
            → mux.active_pairs < hard_limit mux
            → is_full s ≡ false)
  unfolding total_operating_capacity is_full
  open_stream_pair-AtLimit elapsed s small room h =
      let nothing =
        opened_nothing s (open_stream_pair elapsed s).1 (open_stream_pair elapsed s).0 h
          (open_stream_pair-Opened elapsed s small room) in
      (nothing.0, nothing.1, no_operating_capacity s.pool h, not_full s.pool)

  try_handle_goaway :
      (idx elapsed : ℕ) (s : Session mpsc) (mux : MuxHandle mpsc)
      → mux.closed ≡ false
      → mux.goaway_received ≡ true
      → (try_handle idx elapsed s (some mux)).0 ≡ err mux_closed
  unfolding Handle.open_stream_pair
  try_handle_goaway idx elapsed s mux live away = simp (live, away)

  refused :
      (idx elapsed : ℕ) (s : Session mpsc) (mux : MuxHandle mpsc)
      → get_elem? s.pool idx ≡ some mux
      → mux.closed ≡ false
      → mux.goaway_received ≡ true
      → (try_open idx elapsed s).0 ≡ err mux_closed
  unfolding try_open
  refused idx elapsed s mux at live away =
      ap (λ (found : Option (MuxHandle mpsc)). (try_handle idx elapsed s found).0) at
      ∙ try_handle_goaway idx elapsed s mux live away

  or_else_err :
      (r : Result (Option ℕ)) (s : Session mpsc) (e : Error)
      (further : Session mpsc → Result ℕ × Session mpsc)
      → r ≡ err e
      → (or_else (r, s) further).0 ≡ err e
  or_else_err (ok frame_size) s e further h = cc
  or_else_err (err e') s e further h = cc

  if_true :
      (b : Bool) (x y : Result ℕ × Session mpsc) (r : Result ℕ)
      → b ≡ true
      → x.0 ≡ r
      → (if b then x else y).0 ≡ r
  if_true true x y r h e = e
  if_true false x y r h e = cc

  -- If the handle that is preferred has received a GOAWAY but is not closed, opening a pair fails with
  -- the error of a closed connection, whatever the other handles could open.
  pub open_stream_pair_goaway :
      (elapsed : ℕ) (s : Session mpsc) (mux : MuxHandle mpsc)
      → 2 ≤ length s.pool
      → get_elem? s.pool (preferred s).0 ≡ some mux
      → mux.closed ≡ false
      → mux.goaway_received ≡ true
      → (open_stream_pair elapsed s).0 ≡ err mux_closed
  unfolding open_stream_pair take_next
  open_stream_pair_goaway elapsed s mux two at live away =
      if_true (leb 2 (length s.pool))
        (or_else (try_open (preferred s).0 elapsed (take_next s))
          (try_second (preferred s).1 elapsed))
        _ _ (ground arith)
        (or_else_err (try_open (preferred s).0 elapsed (take_next s)).0
          (try_open (preferred s).0 elapsed (take_next s)).1 mux_closed
          (try_second (preferred s).1 elapsed)
          (refused (preferred s).0 elapsed (take_next s) mux at live away))
