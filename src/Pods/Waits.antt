-- ===== src/Pods/Waits.antt =====
-- crates/kube-portforward/src/pod_watch.rs, `wait_for_ready_pod`: what the waiting loop answers.
use kube_portforward.Prelude.{
  ◌≡◌, ◌≢◌, ◌⊎◌, inl, inr, refl, List, [], ◌∷◌, Option, none, some, true, false, arith,
}
use kube_portforward.Pods.{
  ReadyPod, PodWatcher, Turn, Received, change, lagged, closed, Waited, waiting, returned,
  on_received, wait_loop, wait_for_ready_pod,
}
use kube_portforward.Pods.Chosen.{Targets, ready_pod-Targets}

-- A turn of the list, before which and at which the watcher was neither cancelled nor out of time,
-- finds this pod in the store.
abbrev pub Found : List Turn → ReadyPod → Type 0
Found [] p = ⊥
Found (turn ∷ turns) p =
    (turn.watcher.cancel ≡ false)
    × (turn.deadline ≡ false)
    × (Targets turn.watcher p ⊎ Found turns p)

on_received-returned :
    (w : PodWatcher) (rest : Waited) (event : Option Received) (p : ReadyPod)
    → on_received w rest event ≡ returned (some p)
    → Targets w p ⊎ (rest ≡ returned (some p))
unfolding on_received
on_received-returned w rest none p e = inr e
on_received-returned w rest (some closed) p e = cc
on_received-returned w rest (some lagged) p e = ground (arith, (ready_pod-Targets w).1 p)
on_received-returned w rest (some (change c)) p e = ground (arith, (ready_pod-Targets w).1 p)

wait_loop-Found :
    (turns : List Turn) (p : ReadyPod) → wait_loop turns ≡ returned (some p) → Found turns p
unfolding wait_loop
wait_loop-Found [] p e = cc
wait_loop-Found (turn ∷ turns) p e = ground (
  arith,
  wait_loop-Found turns p,
  on_received-returned turn.watcher (wait_loop turns) turn.event p,
)

-- If the wait answers with a pod, then the watcher was not cancelled when it began, and either the
-- store offered the pod at once, or it did so at a later turn that, like every turn before it, came
-- before the cancellation and before the deadline.
pub wait_for_ready_pod-Found :
    (w : PodWatcher) (turns : List Turn) (p : ReadyPod)
    → wait_for_ready_pod w turns ≡ returned (some p)
    → (w.cancel ≡ false) × (Targets w p ⊎ Found turns p)
unfolding wait_for_ready_pod
wait_for_ready_pod-Found w turns p e =
    ground (arith, (ready_pod-Targets w).1 p, wait_loop-Found turns p)

-- A turn at which the loop has to stop: the watcher is cancelled, or the time is over, or the
-- channel is closed.
abbrev pub Stops : Turn → Type 0
Stops turn = (turn.watcher.cancel ≡ true) ⊎ ((turn.deadline ≡ true) ⊎ (turn.event ≡ some closed))

abbrev pub Stopped : List Turn → Type 0
Stopped [] = ⊥
Stopped (turn ∷ turns) = Stops turn ⊎ Stopped turns

on_received-waiting :
    (w : PodWatcher) (rest : Waited) (event : Option Received)
    → on_received w rest event ≡ waiting
    → (rest ≡ waiting) × (event ≢ some closed)
unfolding on_received
on_received-waiting w rest none e = ground arith
on_received-waiting w rest (some closed) e = cc
on_received-waiting w rest (some lagged) e = ground arith
on_received-waiting w rest (some (change c)) e = ground arith

wait_loop-waiting : (turns : List Turn) → Stopped turns → wait_loop turns ≢ waiting
unfolding wait_loop
wait_loop-waiting [] h e = elim h [ ]
wait_loop-waiting (turn ∷ turns) (inl stop) e =
    ground (arith, on_received-waiting turn.watcher (wait_loop turns) turn.event)
wait_loop-waiting (turn ∷ turns) (inr later) e = ground (
  arith,
  on_received-waiting turn.watcher (wait_loop turns) turn.event,
  wait_loop-waiting turns later,
)

Waited-cases : (r : Waited) → (r ≡ waiting) ⊎ ((answer : Option ReadyPod) × (r ≡ returned answer))
Waited-cases waiting = inl refl
Waited-cases (returned answer) = inr (answer, refl)

wait_for_ready_pod-waiting :
    (w : PodWatcher) (turns : List Turn) → Stopped turns → wait_for_ready_pod w turns ≢ waiting
unfolding wait_for_ready_pod
wait_for_ready_pod-waiting w turns h e = ground (arith, wait_loop-waiting turns h)

-- The wait ends: once a turn comes at which the watcher is cancelled, the time is over or the
-- channel is closed, the call has returned, at that turn at the latest.
wait_for_ready_pod_ends :
    (w : PodWatcher) (turns : List Turn)
    → Stopped turns
    → (answer : Option ReadyPod) × (wait_for_ready_pod w turns ≡ returned answer)
wait_for_ready_pod_ends w turns h = elim (Waited-cases (wait_for_ready_pod w turns)) [
  | inl e ↦ absurd (wait_for_ready_pod-waiting w turns h e)
  | inr found ↦ found
]
