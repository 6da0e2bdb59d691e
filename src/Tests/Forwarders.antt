-- ===== src/Tests/Forwarders.antt =====
-- The theorems on the pool of a forwarder and its calls at concrete inputs.
use kube_portforward.Prelude.{
  ℕ, zero, suc, ◌+◌, ◌<◌, ◌≤◌, ◌≡◌, ◌≢◌, ◌↔◌, refl, List, [], ◌∷◌, ◌++◌, some, none, Bool, true,
  false, length, if◌then◌else◌, arith,
}
use kube_portforward.Prelude.Maps.{update}
use kube_portforward.Pods.{ReadyPod}
use kube_portforward.Pods
use kube_portforward.Forwarder.{
  Session, ForwarderConfig, Forwarder, addresses, find_reusable_session, session_serves, drop_slot,
  opened,
}
use kube_portforward.Forwarder.Prefetches.{is_prunable, prune_once}
use kube_portforward.Forwarder.Calls.{
  Phase, resolving, reusing, opening, prefetching, filling, returned, Answers, granted, connected,
  on_stale, resume, handle_pod_died, names,
}
use kube_portforward.Forwarder.System.{
  System, called, resumed, start, Reach, started, later, sum_of, holds, opens, is_over,
}
use kube_portforward.Forwarder.Pool.{Owned}
use kube_portforward.Forwarder.Reached.{Reach-Owned, Reach_counted, Reach_bounded, Reach_served}
use kube_portforward.Forwarder.Targets.{resume-reusing, resume-opening}
use kube_portforward.Forwarder.Emptied.{
  Takes, All, IsCancelled, prune_once-Takes, handle_pod_died_drains,
}
use kube_portforward.Forwarder.Ends.{phase_after, phase_after_ends}

abbrev pod_a : ReadyPod
pod_a = record { name = "a"; uid = some "1" }

abbrev pod_b : ReadyPod
pod_b = record { name = "b"; uid = some "2" }

abbrev config : ForwarderConfig
config = record { max_sessions = 2; prune_idle_age = 60; below_threshold = λ in_use capacity. true }

abbrev ports : ℕ → ℕ
ports i = 8080

abbrev answers : ReadyPod → Answers
answers pod = record { ready = some pod; permit = granted; session = connected 4; now = 7 }

-- Both calls have begun.
abbrev begun : System
begun = record (start (λ at. opened pod_a 1 1)) {
  phases = update (update (λ i. Phase.idle) 0 (resolving true)) 1 (resolving true);
}

begun-Reach : Reach config 2 ports begun
unfolding is_over
begun-Reach = later (later (started _) (called 0 (omega arith) refl)) (called 1 (omega arith) refl)

-- The call `i` goes on `n` times, and its futures answer with one pod.
go_on : ℕ → ReadyPod → ℕ → System → System
go_on i pod zero s = s
go_on i pod (suc n) s = go_on i pod n (record {
  shared = (resume config (ports i) (answers pod) (s.phases i) s.shared).1;
  phases = update s.phases i (resume config (ports i) (answers pod) (s.phases i) s.shared).0;
})

go_on-Reach :
    (i : ℕ) (pod : ReadyPod) (n : ℕ) (s : System)
    → i < 2
    → Reach config 2 ports s
    → Reach config 2 ports (go_on i pod n s)
unfolding go_on
go_on-Reach i pod zero s lt r = r
go_on-Reach i pod (suc n) s lt r = go_on-Reach i pod n _ lt (later r (resumed i (answers pod) lt))

-- The first call has made the pod `a` the target and is about to look for a session, when the second
-- call makes `b` the target and opens one.
abbrev overtaken : System
overtaken = go_on 1 pod_b 11 (go_on 0 pod_a 3 begun)

overtaken-Reach : Reach config 2 ports overtaken
overtaken-Reach =
    go_on-Reach 1 pod_b 11 _ (omega arith) (go_on-Reach 0 pod_a 3 begun (omega arith) begun-Reach)

second_done : overtaken.phases 1 ≡ returned 0 pod_b
unfolding go_on resume Pods.same_text
second_done = refl

Reach-Owned_example :
    (overtaken.shared.pool.snapshot ≡ addresses overtaken.shared.pool.entries)
    × Owned overtaken.shared.pool.target overtaken.shared.sessions overtaken.shared.fresh
        overtaken.shared.pool.entries
Reach-Owned_example = Reach-Owned config 2 ports overtaken overtaken-Reach

Reach_counted_example :
    (overtaken.shared.pool.opening_count ≡ sum_of holds 2 overtaken.phases)
    × (length overtaken.shared.prefetches
        ≤ (if overtaken.shared.pool.prefetch_in_flight then 1 else 0))
Reach_counted_example = Reach_counted config 2 ports overtaken overtaken-Reach

Reach_bounded_example :
    (overtaken.shared.pool.opening_count ≤ 2)
    × (length overtaken.shared.pool.entries + sum_of opens 2 overtaken.phases ≤ 2 + 2)
Reach_bounded_example = Reach_bounded config 2 ports overtaken overtaken-Reach

Reach_served_example : (0 < overtaken.shared.fresh) × ((overtaken.shared.sessions 0).port ≡ 8080)
Reach_served_example =
    Reach_served config 2 ports overtaken 1 0 pod_b overtaken-Reach (omega arith) second_done

first_finds : find_reusable_session 8080 overtaken.shared ≡ some 0
unfolding go_on resume Pods.same_text
first_finds = refl

-- The first call, told of the pod `a`, gets a session of the pod `b`.
resume-reusing_example :
    (resume config 8080 (answers pod_a) (reusing pod_a true) overtaken.shared
      ≡ (prefetching 0 pod_a, overtaken.shared))
    × (session_serves (overtaken.shared.sessions 0) 8080 ≡ true)
    × (overtaken.shared.pool.target ≡ some (overtaken.shared.sessions 0).pod)
    × (((overtaken.shared.sessions 0).pod ≡ pod_a) ↔ (overtaken.shared.pool.target ≡ some pod_a))
resume-reusing_example =
    resume-reusing config 2 ports overtaken (answers pod_a) pod_a true 8080 0 overtaken-Reach
      first_finds

first_gets_b : (overtaken.shared.sessions 0).pod ≡ pod_b
unfolding go_on resume Pods.same_text
first_gets_b = refl

-- A pool with an old idle session and a busy one.
abbrev busy : Session
busy = record (opened pod_a 8080 4) { in_use = 3 }

abbrev pooled : Forwarder
pooled = record {
  pool = record {
    entries =
        (record { session = 0; created_at = 1 }) ∷ (record { session = 1; created_at = 2 }) ∷ [];
    target = some pod_a;
    prefetch_in_flight = false;
    opening_count = 0;
    snapshot = 0 ∷ 1 ∷ [];
  };
  sessions = update (λ at. opened pod_a 8080 4) 1 busy;
  fresh = 2;
  prefetches = [];
  replenishes = [];
}

prune_once-Takes_example :
    Takes (is_prunable 100 60 pooled.sessions) pooled (prune_once 100 60 pooled)
    × (0 < 2 → 0 < length (prune_once 100 60 pooled).pool.entries)
prune_once-Takes_example = prune_once-Takes 100 60 pooled

first_pruned : (prune_once 100 60 pooled).pool.snapshot ≡ 1 ∷ []
unfolding prune_once opened
first_pruned = refl

abbrev after_death : Bool × Forwarder
after_death = handle_pod_died (λ pod_name uid. false) "a" pooled

handle_pod_died_drains_example :
    ((after_death.0 ≡ true)
      ↔ ((names pooled.pool.target "a" ≡ true) × (◌≡◌ {A = Bool} false false)))
    × (after_death.0 ≡ true
        → (after_death.1.pool.target ≡ none)
          × (after_death.1.pool.entries ≡ [])
          × (after_death.1.pool.snapshot ≡ [])
          × All (IsCancelled after_death.1.sessions) pooled.pool.entries)
    × (after_death.0 ≡ false → after_death.1 ≡ pooled)
handle_pod_died_drains_example = handle_pod_died_drains (λ pod_name uid. false) "a" pooled

resume-opening_example :
    (((resume config 8080 (answers pod_a) (opening pod_a true) pooled).1.sessions 2).pod ≡ pod_a)
    × (((resume config 8080 (answers pod_a) (opening pod_a true) pooled).1.sessions 2).port ≡ 8080)
    × (some pod_a ≡ some pod_a
        → ((resume config 8080 (answers pod_a) (opening pod_a true) pooled).0 ≡ filling 2 pod_a)
          × ((resume config 8080 (answers pod_a) (opening pod_a true) pooled).1.pool.entries
              ≡ pooled.pool.entries ++ (record { session = 2; created_at = 7 }) ∷ []))
    × (some pod_a ≢ some pod_a
        → ((resume config 8080 (answers pod_a) (opening pod_a true) pooled).0 ≡ on_stale true)
          × (((resume config 8080 (answers pod_a) (opening pod_a true) pooled).1.sessions
                2).is_cancelled
              ≡ true)
          × ((resume config 8080 (answers pod_a) (opening pod_a true) pooled).1.pool
              ≡ drop_slot pooled.pool))
resume-opening_example = resume-opening config 8080 4 (answers pod_a) pod_a true pooled refl

-- A list of the same answers and the same state, as often as is asked.
turns : ℕ → List (Answers × Forwarder)
turns zero = []
turns (suc n) = (answers pod_a, pooled) ∷ turns n

phase_after_ends_example : is_over (phase_after config 8080 (turns 24) (resolving true)) ≡ true
unfolding turns
phase_after_ends_example = phase_after_ends config 8080 (turns 24) (omega arith)
