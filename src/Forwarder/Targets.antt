-- ===== src/Forwarder/Targets.antt =====
-- crates/kube-portforward/src/forwarder: the pod that sessions belong to, with the watcher's answers.
use Prim.Native.String.{String}
use text.Mathlib.TextEquality.{eq_iff}
use kube_portforward.Prelude.{
  ℕ, ◌+◌, ◌<◌, ◌≡◌, ◌≢◌, ◌↔◌, inl, inr, refl, sym, ap, subst, ◌∙◌, List, [], ◌∷◌, ◌++◌, Option,
  none, some, Bool, true, false, length, length-append, arith, Bool-cases,
}
use kube_portforward.Pods.{ReadyPod, PodWatcher, ready_pod, contains_identity}
use kube_portforward.Pods.Chosen.{ready_pod-has_running_pods, same_pod_iff}
use kube_portforward.Forwarder.{
  Session, Forwarder, ForwarderConfig, Prefetch, is_target, find_reusable_session, session_serves,
  open_session, install_if_current, push_entry, refresh_snapshot, cancel, cancelled_session,
  drop_slot,
}
use kube_portforward.Forwarder.Prefetches.{place_prefetched, end_prefetch, finish_prefetch}
use kube_portforward.Forwarder.Calls.{
  Phase, reusing, opening, prefetching, filling, Answers, Opening, connected, on_stale, on_install,
  on_opening, resume, handle_pod_died, names, uid_of,
}
use kube_portforward.Forwarder.System.{System, Reach, opens, sum_of}
use kube_portforward.Forwarder.Reached.{Reach-IsConsistent}
use kube_portforward.Forwarder.Serving.{find_reusable_session-Owned}
use kube_portforward.Forwarder.Pool.{is_target-eq, open_session_there}

names_eq :
    (target : Option ReadyPod) (p : ReadyPod)
    → target ≡ some p
    → (dead : String) → names target dead ≡ true
    → dead ≡ p.name
unfolding names
names_eq none p e dead h = cc
names_eq (some t) p e dead h = ground (arith, eq_iff t.name dead)

uid_of_eq : (target : Option ReadyPod) (p : ReadyPod) → target ≡ some p → uid_of target ≡ p.uid
unfolding uid_of
uid_of_eq none p e = cc
uid_of_eq (some t) p e = ground arith

-- While the watcher answers with the pod that is the target, a message that a pod of whatever name
-- died changes nothing: a late message about a predecessor of the same name does not drain the pool.
pub handle_pod_died-ready_pod :
    (w : PodWatcher) (p : ReadyPod) (dead : String) (f : Forwarder)
    → (ready_pod w).0 ≡ some p
    → f.pool.target ≡ some p
    → handle_pod_died (λ pod_name uid. contains_identity pod_name uid w) dead f ≡ (false, f)
unfolding handle_pod_died
handle_pod_died-ready_pod w p dead f answer current = elim (Bool-cases (names f.pool.target dead)) [
  | inl named ↦
      let there : contains_identity dead (uid_of f.pool.target) w ≡ true =
        ap (λ (pod_name : String). contains_identity pod_name (uid_of f.pool.target) w)
          (names_eq f.pool.target p current dead named)
        ∙ ap (λ (uid : Option String). contains_identity p.name uid w)
            (uid_of_eq f.pool.target p current)
        ∙ (ready_pod-has_running_pods w p answer).1 in
      ground (arith, there)
  | inr other ↦ ground arith
]

-- A call that reuses a session without waiting, in any state that can be reached: the session was
-- opened for the pod that is the target at that moment, serves the call's port and is neither
-- cancelled nor full; so it belongs to the pod that the call returns with it exactly if that pod is
-- still the target.
pub resume-reusing :
    (config : ForwarderConfig) (n : ℕ) (ports : ℕ → ℕ) (s : System) (answers : Answers)
    (pod : ReadyPod) (retry : Bool) (port at : ℕ)
    → Reach config n ports s
    → find_reusable_session port s.shared ≡ some at
    → (resume config port answers (reusing pod retry) s.shared ≡ (prefetching at pod, s.shared))
      × (session_serves (s.shared.sessions at) port ≡ true)
      × (s.shared.pool.target ≡ some (s.shared.sessions at).pod)
      × (((s.shared.sessions at).pod ≡ pod) ↔ (s.shared.pool.target ≡ some pod))
unfolding resume
resume-reusing config n ports s answers pod retry port at r e =
    let found =
      find_reusable_session-Owned config.max_sessions (sum_of opens n s.phases) port s.shared at
        (Reach-IsConsistent config n ports r).inv e in
    (rw e, found.2, found.1, (λ same. found.1 ∙ ap some same, λ current. cc (found.1)))

is_target_of :
    (target : Option ReadyPod) (pod : ReadyPod) → target ≡ some pod → is_target target pod ≡ true
unfolding is_target
is_target_of none pod e = cc
is_target_of (some other) pod e = ground (arith, same_pod_iff other pod)

-- The fate of a session at the address `at`.
abbrev Placed : ℕ → ReadyPod → Bool → ℕ → Forwarder → Phase × Forwarder → Type 0
Placed at pod retry now f (phase, g) =
    ((g.sessions at).pod ≡ (f.sessions at).pod)
    × ((g.sessions at).port ≡ (f.sessions at).port)
    × (f.pool.target ≡ some pod
        → (phase ≡ filling at pod)
          × (g.pool.entries ≡ f.pool.entries ++ (record { session = at; created_at = now }) ∷ []))
    × (f.pool.target ≢ some pod
        → (phase ≡ on_stale retry)
          × ((g.sessions at).is_cancelled ≡ true)
          × (g.pool ≡ drop_slot f.pool))

cancel_self :
    (at : ℕ) (sessions : ℕ → Session) → cancel at sessions at ≡ cancelled_session (sessions at)
unfolding cancel
cancel_self at sessions = ground arith

on_install-Placed :
    (at : ℕ) (pod : ReadyPod) (retry : Bool) (now : ℕ) (f : Forwarder)
    → Placed at pod retry now f (on_install at pod retry now f)
unfolding install_if_current push_entry refresh_snapshot cancelled_session
on_install-Placed at pod retry now f = elim (Bool-cases (is_target f.pool.target pod)) [
  | inl e ↦
      rw (e, install_if_current)
        (
          refl,
          refl,
          λ current. (refl, refl),
          λ stale. absurd (stale (is_target-eq f.pool.target pod e)),
        )
  | inr e ↦
      rw (e, install_if_current)
        (
          ap (λ (a : Session). a.pod) (cancel_self at f.sessions),
          ap (λ (a : Session). a.port) (cancel_self at f.sessions),
          λ current. cc (is_target_of f.pool.target pod current),
          λ stale. (refl, ap (λ (a : Session). a.is_cancelled) (cancel_self at f.sessions), refl),
        )
]

-- A session that was opened by a call goes into the pool, at the end, if the pod that it was opened
-- for is the target still, and the call returns it with that pod; if not, it is cancelled, the pool
-- is left as it was but for the slot, which is given back, and the call starts over once and fails
-- the second time.
pub resume-opening :
    (config : ForwarderConfig) (port capacity : ℕ) (answers : Answers) (pod : ReadyPod)
    (retry : Bool) (f : Forwarder)
    → answers.session ≡ connected capacity
    → let (phase, g) = resume config port answers (opening pod retry) f in
      ((g.sessions f.fresh).pod ≡ pod)
      × ((g.sessions f.fresh).port ≡ port)
      × (f.pool.target ≡ some pod
          → (phase ≡ filling f.fresh pod)
            × (g.pool.entries
                ≡ f.pool.entries ++ (record { session = f.fresh; created_at = answers.now }) ∷ []))
      × (f.pool.target ≢ some pod
          → (phase ≡ on_stale retry)
            × ((g.sessions f.fresh).is_cancelled ≡ true)
            × (g.pool ≡ drop_slot f.pool))
unfolding resume
resume-opening config port capacity answers pod retry f e =
    let there = open_session_there pod port capacity f in
    let placed =
      on_install-Placed f.fresh pod retry answers.now (open_session pod port capacity f) in
    subst
      (λ (answer : Opening).
        let (phase, g) = on_opening answer port pod retry answers.now f in
        ((g.sessions f.fresh).pod ≡ pod)
        × ((g.sessions f.fresh).port ≡ port)
        × (f.pool.target ≡ some pod
            → (phase ≡ filling f.fresh pod)
              × (g.pool.entries
                  ≡ f.pool.entries
                    ++ (record { session = f.fresh; created_at = answers.now }) ∷ []))
        × (f.pool.target ≢ some pod
            → (phase ≡ on_stale retry)
              × ((g.sessions f.fresh).is_cancelled ≡ true)
              × (g.pool ≡ drop_slot f.pool)))
      (sym e) (placed.0 ∙ there.1, placed.1 ∙ there.2, placed.2, placed.3)

end_prefetch_exceeds :
    (config : ForwarderConfig) (task : Prefetch) (tasks : List Prefetch) (capacity now : ℕ)
    (f : Forwarder)
    → f.pool.target ≡ some task.target
    → length f.pool.entries < config.max_sessions
    → length (end_prefetch config (task ∷ tasks) (some capacity) now f).pool.entries
        + (end_prefetch config (task ∷ tasks) (some capacity) now f).pool.opening_count
      ≡ length f.pool.entries + f.pool.opening_count + 1
unfolding end_prefetch place_prefetched open_session push_entry refresh_snapshot
end_prefetch_exceeds config task tasks capacity now f current room = ground (
  arith,
  is_target_of f.pool.target task.target current,
  length-append f.pool.entries ((record { session = f.fresh; created_at = now }) ∷ []),
)

-- The end of a prefetch looks at the entries alone: in a pool in which entries and openings have
-- taken all the places, and whose target is the task's pod, a session that was opened ahead of need
-- is still added as long as some of the places are only reserved; entries and openings together are
-- then one more than the places.
finish_prefetch_exceeds :
    (config : ForwarderConfig) (task : Prefetch) (tasks : List Prefetch) (capacity now : ℕ)
    (f : Forwarder)
    → f.prefetches ≡ task ∷ tasks
    → f.pool.target ≡ some task.target
    → length f.pool.entries + f.pool.opening_count ≡ config.max_sessions
    → 0 < f.pool.opening_count
    → length (finish_prefetch config (some capacity) now f).pool.entries
        + (finish_prefetch config (some capacity) now f).pool.opening_count
      ≡ config.max_sessions + 1
unfolding finish_prefetch
finish_prefetch_exceeds config task tasks capacity now f e current all some_reserved =
    subst
      (λ (waiting_tasks : List Prefetch).
        length (end_prefetch config waiting_tasks (some capacity) now f).pool.entries
          + (end_prefetch config waiting_tasks (some capacity) now f).pool.opening_count
        ≡ config.max_sessions + 1)
      (sym e)
      (omega (arith, end_prefetch_exceeds config task tasks capacity now f current (omega arith)))
