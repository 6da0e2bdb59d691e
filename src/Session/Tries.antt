-- ===== src/Session/Tries.antt =====
-- crates/spdy-mux/src/session.rs, `try_open`: what a try on one handle does.
use kube_portforward.Prelude.{
  ℕ, zero, suc, ◌+◌, ◌^◌, ◌≤◌, ◌<◌, ◌≡◌, ◌⊎◌, inl, refl, ap, subst, ◌∙◌, List, [], ◌∷◌, Option,
  none, some, Bool, true, false, ◌||◌, get_elem?, set, if◌then◌else◌, arith,
}
use kube_portforward.Error.{Result, ok, err, mux_closed, capacity_exhausted}
use kube_portforward.Mux.Channel.{Mpsc}
use kube_portforward.Mux.Handle.{MuxHandle, hard_limit, operating_limit}
use kube_portforward.Mux.Handle
use kube_portforward.Mux.Handle.Capacity.{open_stream_pair_bounded, open_stream_pair_refused}
use kube_portforward.Session.{Session, try_open, try_handle, on_opened}

module _ {mpsc : Mpsc} where
  -- The number of pairs of every handle fits in a u32.
  abbrev pub IsSmall : List (MuxHandle mpsc) → Type 0
  IsSmall [] = Unit
  IsSmall (mux ∷ pool) = (mux.active_pairs < 2 ^ 32) × IsSmall pool

  -- A handle that opens nothing now, and does not fail the session either.
  abbrev pub IsUnavailable : MuxHandle mpsc → Type 0
  IsUnavailable mux =
      (mux.closed ≡ true)
      ⊎ ((operating_limit mux ≤ mux.active_pairs) ⊎ (hard_limit mux ≤ mux.active_pairs))

  -- A handle with room, and the handle after one pair more was opened on it.
  pub record HasOpened (mux mux' : MuxHandle mpsc) : Type 0 where
    pub live : (mux.closed || mux.goaway_received) ≡ false
    pub more : mux'.active_pairs ≡ mux.active_pairs + 1
    pub operating : mux'.active_pairs ≤ operating_limit mux
    pub hard : mux'.active_pairs ≤ hard_limit mux

  pub data Tried (idx : ℕ) (s : Session mpsc) (r : Result (Option ℕ)) (s' : Session mpsc)
      : Type 0 where
    skipped :
        ((mux : MuxHandle mpsc) → get_elem? s.pool idx ≡ some mux → IsUnavailable mux)
        → r ≡ ok none
        → s'.pool ≡ s.pool
        → Tried idx s r s'
    opened :
        (mux mux' : MuxHandle mpsc) (frame_size : ℕ)
        → get_elem? s.pool idx ≡ some mux
        → HasOpened mux mux'
        → r ≡ ok (some frame_size)
        → s'.pool ≡ set s.pool idx mux'
        → Tried idx s r s'
    failed :
        (mux : MuxHandle mpsc)
        → get_elem? s.pool idx ≡ some mux
        → mux.closed ≡ false
        → mux.goaway_received ≡ true
        → r ≡ err mux_closed
        → s'.pool ≡ s.pool
        → Tried idx s r s'

  set-get_elem? :
      (pool : List (MuxHandle mpsc)) (idx : ℕ) (mux : MuxHandle mpsc)
      → get_elem? pool idx ≡ some mux
      → set pool idx mux ≡ pool
  set-get_elem? [] idx mux e = refl
  set-get_elem? (m ∷ pool) zero mux e = cc
  set-get_elem? (m ∷ pool) (suc idx) mux e = ap (◌∷◌ m) (set-get_elem? pool idx mux e)

  IsSmall-get_elem? :
      (pool : List (MuxHandle mpsc)) (idx : ℕ) (mux : MuxHandle mpsc)
      → IsSmall pool
      → get_elem? pool idx ≡ some mux
      → mux.active_pairs < 2 ^ 32
  IsSmall-get_elem? [] idx mux small e = cc
  IsSmall-get_elem? (m ∷ pool) zero mux (small, rest) e =
      subst
        (λ (o : Option (MuxHandle mpsc)). elim o [
          | none ↦ Unit {0}
          | some m ↦ m.active_pairs < 2 ^ 32
        ])
        e small
  IsSmall-get_elem? (m ∷ pool) (suc idx) mux (small, rest) e = IsSmall-get_elem? pool idx mux rest e

  -- What the handle answered, and what the session makes of it.
  on_opened-Tried :
      (idx elapsed : ℕ) (s : Session mpsc) (mux mux' : MuxHandle mpsc) (answer : Result ℕ)
      → get_elem? s.pool idx ≡ some mux
      → mux.active_pairs < 2 ^ 32
      → mux.closed ≡ false
      → Handle.open_stream_pair mux ≡ (answer, mux')
      → Tried idx s
          (on_opened idx elapsed s (answer, mux')).0
          (on_opened idx elapsed s (answer, mux')).1
  on_opened-Tried idx elapsed s mux mux' (ok frame_size) at small live e =
      let (more, operating, hard, going) = open_stream_pair_bounded mux frame_size mux' small e in
      opened mux mux' frame_size at
        (record { live = going; more = more; operating = operating; hard = hard }) refl refl
  on_opened-Tried idx elapsed s mux mux' (err (capacity_exhausted in_use limit)) at small live e =
      let (same, why) =
        open_stream_pair_refused mux (capacity_exhausted in_use limit) mux' small e in
      let unavailable : IsUnavailable mux = ground arith in
      skipped (λ m found. subst (λ (x : MuxHandle mpsc). IsUnavailable x) (cc) unavailable) refl
        (ap (set s.pool idx) same ∙ set-get_elem? s.pool idx mux at)
  on_opened-Tried idx elapsed s mux mux' (err mux_closed) at small live e =
      let (same, why) = open_stream_pair_refused mux mux_closed mux' small e in
      failed mux at live (ground arith) refl
        (ap (set s.pool idx) same ∙ set-get_elem? s.pool idx mux at)
  on_opened-Tried idx elapsed s mux mux' (err problem) at small live e =
      let (same, why) = open_stream_pair_refused mux problem mux' small e in absurd (ground arith)

  if-Tried :
      (idx : ℕ) (s : Session mpsc) (b : Bool) (x y : Result (Option ℕ) × Session mpsc)
      → (b ≡ true → Tried idx s x.0 x.1)
      → (b ≡ false → Tried idx s y.0 y.1)
      → Tried idx s (if b then x else y).0 (if b then x else y).1
  if-Tried idx s true x y on_true on_false = on_true refl
  if-Tried idx s false x y on_true on_false = on_false refl

  try_handle-Tried :
      (idx elapsed : ℕ) (s : Session mpsc) (found : Option (MuxHandle mpsc))
      → IsSmall s.pool
      → get_elem? s.pool idx ≡ found
      → Tried idx s (try_handle idx elapsed s found).0 (try_handle idx elapsed s found).1
  try_handle-Tried idx elapsed s none small at = skipped (λ m e. absurd (cc)) refl refl
  try_handle-Tried idx elapsed s (some mux) small at =
      if-Tried idx s mux.closed (ok none, s) (on_opened idx elapsed s (Handle.open_stream_pair mux))
        (λ closed.
          skipped
            (λ m e.
              let same : mux ≡ m = cc in
              subst (λ (x : MuxHandle mpsc). IsUnavailable x) same (inl closed))
            refl refl)
        (λ live.
          on_opened-Tried idx elapsed s mux (Handle.open_stream_pair mux).1
            (Handle.open_stream_pair mux).0 at (IsSmall-get_elem? s.pool idx mux small at) live
            refl)

  pub try_open-Tried :
      (idx elapsed : ℕ) (s : Session mpsc)
      → IsSmall s.pool
      → Tried idx s (try_open idx elapsed s).0 (try_open idx elapsed s).1
  unfolding try_open
  try_open-Tried idx elapsed s small = try_handle-Tried idx elapsed s _ small refl
