-- ===== src/Forwarder/Reached.antt =====
-- crates/kube-portforward/src/forwarder: what holds of the pool and of the calls after any run.
use kube_portforward.Prelude.{
  ◌++◌, ℕ, ◌+◌, ◌<◌, ◌≤◌, ◌≡◌, refl, subst, ◌∙◌, true, ◌==◌, length, arith, if◌then◌else◌,
  Bool-cases, inl, inr,
}
use kube_portforward.Prelude.Maps.{update}
use kube_portforward.Pods.{ReadyPod}
use kube_portforward.Forwarder.{Session, ForwarderConfig, Forwarder, addresses}
use kube_portforward.Forwarder.Calls.{Phase, idle, resolving, returned}
use kube_portforward.Forwarder.System.{
  System, holds, opens, drop_future, shutdown, Step, called, resumed, dropped, prefetched, pruned,
  pod_died, shut, evolved, replenished, start, Reach, started, later, sum_of, sum_of-update,
  sum_of-idle, sum_of-opens-le,
}
use kube_portforward.Forwarder.Grows.{
  Extends, Extends-same, resume-Extends, evolved-Extends, finish_prefetch-Extends,
  prune_once-Extends, handle_pod_died-Extends, drop_future-Extends, shutdown-Extends,
}
use kube_portforward.Forwarder.Pool.{
  Owned, Inv, finish_prefetch_count, prune_once_count, handle_pod_died_count, shutdown_count,
  shutdown-Inv, evolved-Inv, replenished-Inv, finish_prefetch-Inv, prune_once-Inv,
  handle_pod_died-Inv,
}
use kube_portforward.Forwarder.Moves.{Moved, called-Moved, drop_future-Moved, resume-Moved}
use kube_portforward.Forwarder.Serving.{Serves, Serves-Extends, resume-Serves}

pub record IsConsistent (config : ForwarderConfig) (n : ℕ) (ports : ℕ → ℕ) (s : System)
    : Type 0 where
  pub inv : Inv config.max_sessions (sum_of opens n s.phases) s.shared
  pub counted : s.shared.pool.opening_count ≡ sum_of holds n s.phases
  pub served : (i : ℕ) → i < n → Serves (ports i) s.shared (s.phases i)

-- The other calls keep their sessions while one call changes its phase.
served-update :
    (n i : ℕ) (ports : ℕ → ℕ) (phases : ℕ → Phase) (phase : Phase) (f g : Forwarder)
    → Extends f g
    → ((j : ℕ) → j < n → Serves (ports j) f (phases j))
    → Serves (ports i) g phase
    → (j : ℕ) → j < n
    → Serves (ports j) g (update phases i phase j)
served-update n i ports phases phase f g x all this j lt = elim (Bool-cases (i == j)) [
  | inl e ↦
      let same : i ≡ j = ground arith in
      rw e (subst (λ (k : ℕ). Serves (ports k) g phase) same this)
  | inr e ↦ rw e (Serves-Extends (ports j) f g (phases j) x (all j lt))
]

module _ (config : ForwarderConfig) (n : ℕ) (ports : ℕ → ℕ) where
  -- A section of a task, which leaves the slots and the phases alone.
  task-IsConsistent :
      (s : System) (g : Forwarder)
      → IsConsistent config n ports s
      → Extends s.shared g
      → g.pool.opening_count ≡ s.shared.pool.opening_count
      → Inv config.max_sessions (sum_of opens n s.phases) g
      → IsConsistent config n ports (record s { shared = g })
  task-IsConsistent s g c x same v = record {
    inv = v;
    counted = same ∙ c.counted;
    served = λ i lt. Serves-Extends (ports i) s.shared g (s.phases i) x (c.served i lt);
  }

  -- A call that goes to another phase. The other calls hold `slots` slots, `rest` of them for
  -- openings.
  Moved-IsConsistent :
      (i rest slots : ℕ) (s : System) (phase : Phase) (g : Forwarder)
      → i < n
      → sum_of opens n s.phases ≡ rest + opens (s.phases i)
      → sum_of holds n s.phases ≡ slots + holds (s.phases i)
      → IsConsistent config n ports s
      → Extends s.shared g
      → Moved config.max_sessions rest slots phase g
      → Serves (ports i) g phase
      → IsConsistent config n ports (record { shared = g; phases = update s.phases i phase })
  Moved-IsConsistent i rest slots s phase g lt o h c x m this = record {
    inv =
        subst (λ (k : ℕ). Inv config.max_sessions k g)
          (omega (arith, sum_of-update opens n s.phases i phase lt)) m.inv;
    counted = omega (arith, m.counted, sum_of-update holds n s.phases i phase lt);
    served = served-update n i ports s.phases phase s.shared g x c.served this;
  }

  start-IsConsistent : (sessions : ℕ → Session) → IsConsistent config n ports (start sessions)
  unfolding opens holds
  start-IsConsistent sessions = record {
    inv = record {
      fresh_snapshot = refl;
      owned = tt;
      single = omega arith;
      few = omega arith;
      bounded = omega (arith, sum_of-idle opens n refl);
    };
    counted = omega (arith, sum_of-idle holds n refl);
    served = λ i lt. tt;
  }

  -- The call `i` steps, and the slots of the others are those with `i` put to rest.
  call-IsConsistent :
      (i : ℕ) (s : System) (phase : Phase) (g : Forwarder)
      → i < n
      → IsConsistent config n ports s
      → Extends s.shared g
      → ((rest slots : ℕ)
          → rest ≤ slots
          → Moved config.max_sessions rest slots (s.phases i) s.shared
          → Moved config.max_sessions rest slots phase g)
      → Serves (ports i) g phase
      → IsConsistent config n ports (record { shared = g; phases = update s.phases i phase })
  unfolding opens holds
  call-IsConsistent i s phase g lt c x move this =
      let rest = sum_of opens n (update s.phases i idle) in
      let slots = sum_of holds n (update s.phases i idle) in
      let o : sum_of opens n s.phases ≡ rest + opens (s.phases i) =
        omega (arith, sum_of-update opens n s.phases i idle lt) in
      let h : sum_of holds n s.phases ≡ slots + holds (s.phases i) =
        omega (arith, sum_of-update holds n s.phases i idle lt) in
      Moved-IsConsistent i rest slots s phase g lt o h c x
        (move rest slots (sum_of-opens-le n (update s.phases i idle)) (record {
          inv = subst (λ (k : ℕ). Inv config.max_sessions k s.shared) o c.inv;
          counted = c.counted ∙ h;
        }))
        this

  Step-IsConsistent :
      {s t : System}
      → Step config n ports s t
      → IsConsistent config n ports s
      → IsConsistent config n ports t
  Step-IsConsistent {s} (called i lt over) c =
      call-IsConsistent i s (resolving true) s.shared lt c
        (Extends-same s.shared s.shared refl refl)
        (λ rest slots le. called-Moved config.max_sessions rest slots (s.phases i) s.shared over) tt
  Step-IsConsistent {s} (resumed i answers lt) c =
      call-IsConsistent i s _ _ lt c (resume-Extends config (ports i) answers (s.phases i) s.shared)
        (λ rest slots le. resume-Moved config (ports i) rest slots le answers (s.phases i) s.shared)
        (resume-Serves config (ports i) config.max_sessions _ answers (s.phases i) s.shared c.inv
          (c.served i lt))
  Step-IsConsistent {s} (dropped i lt) c =
      call-IsConsistent i s idle (drop_future (s.phases i) s.shared) lt c
        (drop_future-Extends (s.phases i) s.shared)
        (λ rest slots le. drop_future-Moved config.max_sessions rest slots (s.phases i) s.shared) tt
  Step-IsConsistent {s} (prefetched answer now) c =
      task-IsConsistent s _ c (finish_prefetch-Extends config answer now s.shared)
        (finish_prefetch_count config answer now s.shared)
        (finish_prefetch-Inv config (sum_of opens n s.phases) answer now s.shared
          (omega (arith, sum_of-opens-le n s.phases, c.counted, c.inv.few)) c.inv)
  Step-IsConsistent {s} (pruned now) c =
      task-IsConsistent s _ c (prune_once-Extends now config.prune_idle_age s.shared)
        (prune_once_count now config.prune_idle_age s.shared)
        (prune_once-Inv now config.prune_idle_age config.max_sessions _ s.shared c.inv)
  Step-IsConsistent {s} (pod_died contains_identity dead) c =
      task-IsConsistent s _ c (handle_pod_died-Extends contains_identity dead s.shared)
        (handle_pod_died_count contains_identity dead s.shared)
        (handle_pod_died-Inv contains_identity dead config.max_sessions _ s.shared c.inv)
  Step-IsConsistent {s} shut c =
      task-IsConsistent s (shutdown s.shared) c (shutdown-Extends s.shared)
        (shutdown_count s.shared) (shutdown-Inv config.max_sessions _ s.shared c.inv)
  Step-IsConsistent {s} (evolved at session e) c =
      task-IsConsistent s _ c (evolved-Extends at session s.shared e) refl
        (evolved-Inv at session config.max_sessions _ s.shared e c.inv)
  Step-IsConsistent {s} (replenished earlier others at session among e) c =
      task-IsConsistent s _ c
        (record {
          grows = (evolved-Extends at session s.shared e).grows;
          keeps = (evolved-Extends at session s.shared e).keeps;
        })
        refl
        (replenished-Inv (earlier ++ others) config.max_sessions _ _
          (evolved-Inv at session config.max_sessions _ s.shared e c.inv))

  pub Reach-IsConsistent : {s : System} → Reach config n ports s → IsConsistent config n ports s
  Reach-IsConsistent (started sessions) = start-IsConsistent sessions
  Reach-IsConsistent (later r step) = Step-IsConsistent step (Reach-IsConsistent r)

-- In every state that calls, tasks and sessions of one Forwarder can come to, whatever the order in
-- which they run: the snapshot that is read without a lock lists the sessions of the pool, in order;
-- and every session of the pool exists and was opened for the pod that is the target.
pub Reach-Owned :
    (config : ForwarderConfig) (n : ℕ) (ports : ℕ → ℕ) (s : System)
    → Reach config n ports s
    → (s.shared.pool.snapshot ≡ addresses s.shared.pool.entries)
      × Owned s.shared.pool.target s.shared.sessions s.shared.fresh s.shared.pool.entries
Reach-Owned config n ports s r =
    let c = Reach-IsConsistent config n ports r in (c.inv.fresh_snapshot, c.inv.owned)

-- In every state that calls, tasks and sessions of one Forwarder can come to, `opening_count` is the
-- number of calls that hold a slot, so that a call which fails, is dropped or has returned leaves
-- none behind; and at most one prefetch task is running, and that only while `prefetch_in_flight` is
-- set.
pub Reach_counted :
    (config : ForwarderConfig) (n : ℕ) (ports : ℕ → ℕ) (s : System)
    → Reach config n ports s
    → (s.shared.pool.opening_count ≡ sum_of holds n s.phases)
      × (length s.shared.prefetches ≤ (if s.shared.pool.prefetch_in_flight then 1 else 0))
Reach_counted config n ports s r =
    let c = Reach-IsConsistent config n ports r in (c.counted, c.inv.single)

-- In every state that calls, tasks and sessions of one Forwarder can come to, at most `max_sessions`
-- slots are held, and the sessions of the pool together with those that calls are opening are at most
-- twice `max_sessions`.
pub Reach_bounded :
    (config : ForwarderConfig) (n : ℕ) (ports : ℕ → ℕ) (s : System)
    → Reach config n ports s
    → (s.shared.pool.opening_count ≤ config.max_sessions)
      × (length s.shared.pool.entries + sum_of opens n s.phases
          ≤ config.max_sessions + config.max_sessions)
Reach_bounded config n ports s r =
    let c = Reach-IsConsistent config n ports r in (c.inv.few, c.inv.bounded)

-- In every state that calls, tasks and sessions of one Forwarder can come to, a call that has ended
-- with a session got one that exists and was opened for the port that the call asked for.
pub Reach_served :
    (config : ForwarderConfig) (n : ℕ) (ports : ℕ → ℕ) (s : System) (i at : ℕ) (pod : ReadyPod)
    → Reach config n ports s
    → i < n
    → s.phases i ≡ returned at pod
    → (at < s.shared.fresh) × ((s.shared.sessions at).port ≡ ports i)
Reach_served config n ports s i at pod r lt e =
    subst (λ (phase : Phase). Serves (ports i) s.shared phase) e
      ((Reach-IsConsistent config n ports r).served i lt)
