-- ===== src/Session.antt =====
-- crates/spdy-mux/src/session.rs: a session over several handles, and the choice of the handle that
-- the next pair of streams is opened on. Handles have the indices 0, 1, … of the pool.
pub mod Tries
pub mod Rounds
pub mod Outcomes
pub mod Opens
pub mod Limits
use kube_portforward.Prelude.{
  ℕ, zero, suc, ◌+◌, ◌-◌, ◌*◌, ◌/◌, ◌%◌, ◌^◌, min, List, [], ◌∷◌, Option, none, some, Bool, true,
  false, ◌&&◌, ◌||◌, ◌==◌, ltb, leb, length, get_elem?, get_or, set, replicate, if◌then◌else◌,
}
use kube_portforward.Error.{Result, ok, err, Error, mux_closed, capacity_exhausted}
use kube_portforward.Mux.Channel.{Mpsc}
use kube_portforward.Mux.Handle.{MuxHandle, hard_limit, operating_capacity}
use kube_portforward.Mux.Handle

abbrev pub u64_max : ℕ
u64_max = 2 ^ 64 - 1

-- The estimate after a measurement; the compare-and-swap loop runs it on the value that it replaces.
unfoldable pub record_rtt : ℕ → ℕ → ℕ
record_rtt elapsed_ns prev =
    if ltb prev elapsed_ns then elapsed_ns else prev / 10 * 9 + elapsed_ns / 10

-- `rtt.saturating_mul(inflight.saturating_add(1))`.
unfoldable pub cost : ℕ → ℕ → ℕ
cost rtt inflight = min (rtt * min (inflight + 1) u64_max) u64_max

-- The estimates of `HandleMetrics` stand in `metrics`.
pub record Session (mpsc : Mpsc) : Type 0 where
  pub pool : List (MuxHandle mpsc)
  pub metrics : List ℕ
  pub next : ℕ
  pub cancel : Bool

-- Two distinct indices below `pool_size`, from the counter.
unfoldable pub pick_two : ℕ → ℕ → ℕ × ℕ
pick_two pool_size seed =
    let a = seed % pool_size in
    let b = (seed * 6364136223846793005 % 2 ^ 64 + 1) % 2 ^ 64 % pool_size in
    if a == b then (a, (a + 1) % pool_size) else (a, b)

module _ {mpsc : Mpsc} where
  -- The handles that were spawned, and the error of the last that was not.
  unfoldable pub healthy :
      List (Result (MuxHandle mpsc)) → Option Error → List (MuxHandle mpsc) × Option Error
  healthy [] last_error = ([], last_error)
  healthy (ok mux ∷ connections) last_error =
      let rest = healthy connections last_error in (mux ∷ rest.0, rest.1)
  healthy (err e ∷ connections) last_error = healthy connections (some e)

  unfoldable pub or_last_error : List (MuxHandle mpsc) → Option Error → Result (Session mpsc)
  or_last_error [] none = err mux_closed
  or_last_error [] (some e) = err e
  or_last_error (mux ∷ pool) last_error = ok (record {
    pool = mux ∷ pool;
    metrics = 1000000 ∷ replicate (length pool) 1000000;
    next = 0;
    cancel = false;
  })

  -- The connections as `MuxHandle::spawn` answers for each.
  unfoldable pub with_config : List (Result (MuxHandle mpsc)) → Result (Session mpsc)
  unfolding healthy or_last_error
  with_config connections =
      let (pool, last_error) = healthy connections none in or_last_error pool last_error

  -- `none` stands for an index out of range, at which the code would panic.
  unfoldable pub handle_cost : ℕ → Session mpsc → ℕ
  unfolding cost
  handle_cost idx s = elim (get_elem? s.pool idx) [
    | none ↦ u64_max
    | some mux ↦
        if mux.closed then u64_max else cost (get_or s.metrics idx 1000000) mux.active_pairs
  ]

  -- A stream was opened after `elapsed` nanoseconds, with this frame size.
  abbrev pub on_opened :
      ℕ → ℕ → Session mpsc → Result ℕ × MuxHandle mpsc → Result (Option ℕ) × Session mpsc
  on_opened idx elapsed s (ok frame_size, mux) = (
    ok (some frame_size),
    record s {
      pool = set s.pool idx mux;
      metrics = set s.metrics idx (record_rtt elapsed (get_or s.metrics idx 1000000));
    },
  )
  on_opened idx elapsed s (err (capacity_exhausted in_use limit), mux) =
      (ok none, record s { pool = set s.pool idx mux })
  on_opened idx elapsed s (err e, mux) = (err e, record s { pool = set s.pool idx mux })

  abbrev pub try_handle :
      ℕ → ℕ → Session mpsc → Option (MuxHandle mpsc) → Result (Option ℕ) × Session mpsc
  try_handle idx elapsed s none = (ok none, s)
  try_handle idx elapsed s (some mux) =
      if mux.closed then (ok none, s) else on_opened idx elapsed s (Handle.open_stream_pair mux)

  unfoldable pub try_open : ℕ → ℕ → Session mpsc → Result (Option ℕ) × Session mpsc
  unfolding Handle.open_stream_pair record_rtt
  try_open idx elapsed s = try_handle idx elapsed s (get_elem? s.pool idx)

  unfoldable pub capacity_of : List (MuxHandle mpsc) → ℕ
  unfolding hard_limit
  capacity_of [] = 0
  capacity_of (mux ∷ pool) = (if mux.closed then 0 else hard_limit mux) + capacity_of pool

  unfoldable pub operating_capacity_of : List (MuxHandle mpsc) → ℕ
  unfolding operating_capacity
  operating_capacity_of [] = 0
  operating_capacity_of (mux ∷ pool) =
      (if mux.closed then 0 else operating_capacity mux) + operating_capacity_of pool

  unfoldable pub in_use_of : List (MuxHandle mpsc) → ℕ
  in_use_of [] = 0
  in_use_of (mux ∷ pool) = mux.active_pairs + in_use_of pool

  unfoldable pub all_full : List (MuxHandle mpsc) → Bool
  unfolding hard_limit
  all_full [] = true
  all_full (mux ∷ pool) = (mux.closed || leb (hard_limit mux) mux.active_pairs) && all_full pool

  unfoldable pub all_closed : List (MuxHandle mpsc) → Bool
  all_closed [] = true
  all_closed (mux ∷ pool) = mux.closed && all_closed pool

  -- The error at the end of `open_stream_pair`, and what follows a try.
  abbrev pub no_handle : Session mpsc → Result ℕ × Session mpsc
  no_handle s = (err (capacity_exhausted (in_use_of s.pool) (capacity_of s.pool % 2 ^ 32)), s)

  abbrev pub or_else :
      Result (Option ℕ) × Session mpsc
      → (Session mpsc → Result ℕ × Session mpsc)
      → Result ℕ × Session mpsc
  or_else (ok (some frame_size), s) further = (ok frame_size, s)
  or_else (ok none, s) further = further s
  or_else (err e, s) further = (err e, s)

  unfoldable pub take_next : Session mpsc → Session mpsc
  take_next s = record s { next = (s.next + 1) % 2 ^ 64 }

  -- The round-robin scan, with the rounds that are left.
  unfoldable pub scan : ℕ → ℕ → ℕ → Session mpsc → Result ℕ × Session mpsc
  unfolding try_open in_use_of capacity_of take_next
  scan zero pool_size elapsed s = no_handle s
  scan (suc rounds) pool_size elapsed s =
      or_else (try_open (s.next % pool_size) elapsed (take_next s)) (scan rounds pool_size elapsed)

  -- The two picks, the cheaper one first.
  unfoldable pub preferred : Session mpsc → ℕ × ℕ
  unfolding pick_two handle_cost
  preferred s =
      let (a, b) = pick_two (length s.pool) s.next in
      if leb (handle_cost a s) (handle_cost b s) then (a, b) else (b, a)

  abbrev pub try_second : ℕ → ℕ → Session mpsc → Result ℕ × Session mpsc
  try_second second elapsed s =
      or_else (try_open second elapsed s) (scan (length s.pool) (length s.pool) elapsed)

  -- The handles see nothing of the headers before the streams are used; `elapsed` is what a
  -- successful opening takes.
  unfoldable pub open_stream_pair : ℕ → Session mpsc → Result ℕ × Session mpsc
  unfolding try_open scan preferred take_next
  open_stream_pair elapsed s =
      if leb 2 (length s.pool)
      then or_else (try_open (preferred s).0 elapsed (take_next s))
          (try_second (preferred s).1 elapsed)
      else scan (length s.pool) (length s.pool) elapsed s

  unfoldable pub capacity : Session mpsc → ℕ
  unfolding capacity_of
  capacity s = capacity_of s.pool

  unfoldable pub total_operating_capacity : Session mpsc → ℕ
  unfolding operating_capacity_of
  total_operating_capacity s = operating_capacity_of s.pool

  unfoldable pub in_use : Session mpsc → ℕ
  unfolding in_use_of
  in_use s = in_use_of s.pool

  unfoldable pub available : Session mpsc → ℕ
  unfolding capacity in_use
  available s = capacity s - in_use s

  unfoldable pub is_full : Session mpsc → Bool
  unfolding all_full
  is_full s = all_full s.pool

  unfoldable pub is_drained : Session mpsc → Bool
  unfolding all_closed
  is_drained s = all_closed s.pool
