-- ===== src/Forwarder/Prefetches.antt =====
-- crates/kube-portforward/src/forwarder/prefetch.rs: the sessions that are opened ahead of need, and
-- the pruning of idle ones.
use kube_portforward.Prelude.{
  ℕ, ◌-◌, List, [], ◌∷◌, ◌++◌, Option, none, some, Bool, true, false, not, ◌&&◌, ◌||◌, ◌==◌, ltb,
  leb, length, if◌then◌else◌,
}
use kube_portforward.Pods.{ReadyPod}
use kube_portforward.Forwarder.{
  Session, PooledSession, ForwarderConfig, Prefetch, Forwarder, retain, extract, is_target,
  push_entry, cancel, open_session,
}

unfoldable pub is_prunable : ℕ → ℕ → (ℕ → Session) → PooledSession → Bool
is_prunable now idle_age sessions e =
    (sessions e.session).is_cancelled
    || ((sessions e.session).in_use == 0 && ltb idle_age (now - e.created_at))

unfoldable pub prune_once : ℕ → ℕ → Forwarder → Forwarder
unfolding retain extract is_prunable
prune_once now idle_age f =
    retain
      (extract (is_prunable now idle_age f.sessions) (length f.pool.entries - 1) f.pool.entries) f

-- The section of `maybe_prefetch` under the lock, with the task that is spawned after it.
unfoldable pub begin_prefetch : ForwarderConfig → ℕ → ReadyPod → Forwarder → Forwarder
unfolding is_target
begin_prefetch config target_port ready f =
    if f.pool.prefetch_in_flight
      || leb config.max_sessions (length f.pool.entries)
      || not (is_target f.pool.target ready)
    then f
    else record f {
      pool = record (f.pool) { prefetch_in_flight = true };
      prefetches = f.prefetches ++ (record { target = ready; target_port = target_port }) ∷ [];
    }

-- The task that replenishes the spare streams of a session is spawned. What it does to the session
-- is `replenish_spare_streams` of Portforward.antt.
unfoldable pub spawn_replenish : ℕ → Forwarder → Forwarder
spawn_replenish at f =
    if (f.sessions at).needs_replenish && not (f.sessions at).is_full
    then record f { replenishes = f.replenishes ++ at ∷ [] }
    else f

-- The thresholds.
unfoldable pub prefetch_at : ForwarderConfig → ℕ → ℕ → ReadyPod → Forwarder → Forwarder
unfolding begin_prefetch
prefetch_at config at target_port ready f =
    let capacity = (f.sessions at).operating_capacity in
    if capacity == 0
    then f
    else if config.below_threshold (f.sessions at).in_use capacity
    then f
    else begin_prefetch config target_port ready f

unfoldable pub maybe_prefetch : ForwarderConfig → ℕ → ℕ → ReadyPod → Forwarder → Forwarder
unfolding spawn_replenish prefetch_at
maybe_prefetch config at target_port ready f =
    prefetch_at config at target_port ready (spawn_replenish at f)

-- The end of the oldest prefetch task: `answer` is the operating capacity of the session that was
-- opened, none that the opening failed.
unfoldable pub place_prefetched : ForwarderConfig → ReadyPod → ℕ → ℕ → Forwarder → Forwarder
unfolding is_target push_entry cancel
place_prefetched config target at now f =
    if ltb (length f.pool.entries) config.max_sessions && is_target f.pool.target target
    then record f { pool = push_entry at now f.pool }
    else record f { sessions = cancel at f.sessions }

unfoldable pub end_prefetch : ForwarderConfig → List Prefetch → Option ℕ → ℕ → Forwarder → Forwarder
unfolding open_session place_prefetched
end_prefetch config [] answer now f = f
end_prefetch config (task ∷ tasks) none now f = record f {
  pool = record (f.pool) { prefetch_in_flight = false };
  prefetches = tasks;
}
end_prefetch config (task ∷ tasks) (some capacity) now f =
    place_prefetched config task.target f.fresh now (
      open_session task.target task.target_port capacity
        (record f { pool = record (f.pool) { prefetch_in_flight = false }; prefetches = tasks }))

unfoldable pub finish_prefetch : ForwarderConfig → Option ℕ → ℕ → Forwarder → Forwarder
unfolding end_prefetch
finish_prefetch config answer now f = end_prefetch config f.prefetches answer now f
