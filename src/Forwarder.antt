-- ===== src/Forwarder.antt =====
-- crates/kube-portforward/src/forwarder: the pool of sessions of a Forwarder. Sessions are shared
-- (`Arc<Session>`), so they stand in a store and the pool holds their addresses. Each function is
-- one section under the pool's lock, with the cancellations that follow it outside the lock.
-- This file is pool.rs; prefetch.rs is in Forwarder/Prefetches.antt, and lifecycle.rs in
-- Forwarder/Calls.antt, over which Forwarder/System.antt lets the calls and tasks interleave.
pub mod Prefetches
pub mod Calls
pub mod System
pub mod Grows
pub mod Pool
pub mod Moves
pub mod Serving
pub mod Reached
pub mod Ends
pub mod Emptied
pub mod Targets
use Prim.Native.String.{String}
use kube_portforward.Prelude.{
  ℕ, ◌+◌, ◌-◌, List, [], ◌∷◌, ◌++◌, Option, none, some, Bool, true, false, not, ◌&&◌, ◌||◌, ◌==◌,
  ltb, leb, length, if◌then◌else◌,
}
use kube_portforward.Prelude.Maps.{update}
use kube_portforward.Error.{Error}
use kube_portforward.Pods.{ReadyPod, same_pod}

-- crates/kube-portforward/src/error.rs; an error of the multiplexer is `spdy`, and one of the client,
-- which is not modelled, `other`.
pub data ForwardError : Type 0 where
  capacity_exhausted : ℕ → ℕ → ForwardError
  configuration network : String → ForwardError
  cancelled : ForwardError
  spdy : Error → ForwardError
  other : ℕ → ForwardError

-- A `Session` as the pool sees it: the pod and the port that it was opened for, and what its
-- methods answer at the moment.
pub record Session : Type 0 where
  pub pod : ReadyPod
  pub port : ℕ
  pub is_cancelled : Bool
  pub is_full : Bool
  pub is_drained : Bool
  pub needs_replenish : Bool
  pub in_use : ℕ
  pub operating_capacity : ℕ

-- The time is a number of nanoseconds.
pub record PooledSession : Type 0 where
  pub session : ℕ
  pub created_at : ℕ

pub record SessionPool : Type 0 where
  pub entries : List PooledSession
  pub target : Option ReadyPod
  pub prefetch_in_flight : Bool
  pub opening_count : ℕ
  pub snapshot : List ℕ

-- `below_threshold in_use capacity` is the comparison of floating-point numbers with
-- `prefetch_threshold`.
pub record ForwarderConfig : Type 0 where
  pub max_sessions : ℕ
  pub prune_idle_age : ℕ
  pub below_threshold : ℕ → ℕ → Bool

-- A spawned task that opens a session ahead of need.
pub record Prefetch : Type 0 where
  pub target : ReadyPod
  pub target_port : ℕ

-- What the calls and tasks of one Forwarder share: its pool, the sessions (`fresh` is the next
-- address), the prefetch tasks that have not finished, and the sessions for which a task was spawned
-- that replenishes their spare streams, in the order of the spawning.
pub record Forwarder : Type 0 where
  pub pool : SessionPool
  pub sessions : ℕ → Session
  pub fresh : ℕ
  pub prefetches : List Prefetch
  pub replenishes : List ℕ

abbrev pub new_pool : SessionPool
new_pool = record {
  entries = [];
  target = none;
  prefetch_in_flight = false;
  opening_count = 0;
  snapshot = [];
}

abbrev pub addresses : List PooledSession → List ℕ
addresses [] = []
addresses (e ∷ entries) = e.session ∷ addresses entries

unfoldable pub refresh_snapshot : SessionPool → SessionPool
refresh_snapshot pool = record pool { snapshot = addresses pool.entries }

unfoldable pub has_in_flight_open : SessionPool → Bool
has_in_flight_open pool = ltb 0 pool.opening_count || pool.prefetch_in_flight

-- `OpeningSlot::new`, and its drop.
unfoldable pub take_slot : SessionPool → SessionPool
take_slot pool = record pool { opening_count = pool.opening_count + 1 }

unfoldable pub drop_slot : SessionPool → SessionPool
drop_slot pool = record pool { opening_count = pool.opening_count - 1 }

unfoldable pub cancelled_session : Session → Session
cancelled_session s = record s { is_cancelled = true }

unfoldable pub cancel : ℕ → (ℕ → Session) → (ℕ → Session)
unfolding cancelled_session
cancel at sessions = update sessions at (cancelled_session (sessions at))

-- The loop over the drained entries.
unfoldable pub cancel_all : List PooledSession → (ℕ → Session) → (ℕ → Session)
unfolding cancel
cancel_all [] sessions = sessions
cancel_all (e ∷ entries) sessions = cancel_all entries (cancel e.session sessions)

-- `mem::take` of the entries under a new target, and the cancellation of what was taken.
unfoldable pub drain_to : Option ReadyPod → Forwarder → Forwarder
unfolding refresh_snapshot cancel_all
drain_to target f = record f {
  pool = refresh_snapshot (record (f.pool) { target = target; entries = [] });
  sessions = cancel_all f.pool.entries f.sessions;
}

unfoldable pub drain_and_cancel_all : Forwarder → Forwarder
unfolding drain_to
drain_and_cancel_all f = drain_to none f

-- `target.as_ref() == Some(ready)`.
unfoldable pub is_target : Option ReadyPod → ReadyPod → Bool
unfolding same_pod
is_target none pod = false
is_target (some target) pod = same_pod target pod

-- The entry is added to the end, and the snapshot taken anew.
unfoldable pub push_entry : ℕ → ℕ → SessionPool → SessionPool
unfolding refresh_snapshot
push_entry session now pool = refresh_snapshot (record pool {
  entries = pool.entries ++ (record { session = session; created_at = now }) ∷ [];
})

-- Whether the session was installed.
unfoldable pub install_if_current : ReadyPod → ℕ → ℕ → SessionPool → Bool × SessionPool
unfolding is_target push_entry
install_if_current opened_for session now pool =
    if is_target pool.target opened_for then (true, push_entry session now pool) else (false, pool)

-- `extract_if(.., test).take(limit)`: at most `limit` entries that pass the test are taken out, in
-- order, and the others stay. The result is what was taken and what stays.
unfoldable pub extract :
    (PooledSession → Bool) → ℕ → List PooledSession → List PooledSession × List PooledSession
extract test limit [] = ([], [])
extract test limit (e ∷ entries) =
    let taken = test e && ltb 0 limit in
    let rest = extract test (if taken then limit - 1 else limit) entries in
    if taken then (e ∷ rest.0, rest.1) else (rest.0, e ∷ rest.1)

unfoldable pub is_empty {ℓ} : {A : Type ℓ} → List A → Bool
is_empty [] = true
is_empty (a ∷ list) = false

-- The entries that stay and, if any was taken, a new snapshot; what was taken is cancelled.
unfoldable pub retain : List PooledSession × List PooledSession → Forwarder → Forwarder
unfolding refresh_snapshot is_empty cancel_all
retain (taken, kept) f =
    let pool = record (f.pool) { entries = kept } in
    record f {
      pool = if is_empty taken then pool else refresh_snapshot pool;
      sessions = cancel_all taken f.sessions;
    }

unfoldable pub is_dead : (ℕ → Session) → PooledSession → Bool
is_dead sessions e = (sessions e.session).is_cancelled || (sessions e.session).is_drained

-- There is no limit here: the number of entries is one that is not reached.
unfoldable pub retire_dead_sessions : Forwarder → Forwarder
unfolding retain extract is_dead
retire_dead_sessions f =
    retain (extract (is_dead f.sessions) (length f.pool.entries) f.pool.entries) f

unfoldable pub session_serves : Session → ℕ → Bool
session_serves s target_port = s.port == target_port && not s.is_cancelled && not s.is_full

unfoldable pub find_serving : List ℕ → (ℕ → Session) → ℕ → Option ℕ
unfolding session_serves
find_serving [] sessions target_port = none
find_serving (at ∷ snapshot) sessions target_port =
    let rest = find_serving snapshot sessions target_port in
    if session_serves (sessions at) target_port then some at else rest

unfoldable pub find_reusable_session : ℕ → Forwarder → Option ℕ
unfolding find_serving
find_reusable_session target_port f = find_serving f.pool.snapshot f.sessions target_port

-- The error is the projected number of sessions, none that a slot was taken.
unfoldable pub reserve_new_slot : ForwarderConfig → SessionPool → Option ForwardError × SessionPool
unfolding take_slot
reserve_new_slot config pool =
    let projected = length pool.entries + pool.opening_count in
    if leb config.max_sessions projected
    then (some (capacity_exhausted projected config.max_sessions), pool)
    else (none, take_slot pool)

-- A session that the client has opened, at the next address, without a spare stream; `capacity` is its
-- operating capacity.
unfoldable pub opened : ReadyPod → ℕ → ℕ → Session
opened pod port capacity = record {
  pod = pod;
  port = port;
  is_cancelled = false;
  is_full = false;
  is_drained = false;
  needs_replenish = true;
  in_use = 0;
  operating_capacity = capacity;
}

unfoldable pub open_session : ReadyPod → ℕ → ℕ → Forwarder → Forwarder
unfolding opened
open_session pod port capacity f = record f {
  sessions = update f.sessions f.fresh (opened pod port capacity);
  fresh = f.fresh + 1;
}
