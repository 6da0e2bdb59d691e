-- ===== src/Pods.antt =====
-- crates/kube-portforward/src/pod_watch.rs: which pods of the watched namespace can be a target, the
-- pod that is cached as the current one, and the changes that are sent to subscribers. The store of
-- the reflector is the list of pods that `Store::state` answers; a pod is the part of it that the
-- code reads, with `name_any` for what the method of that name answers.
pub mod Chosen
pub mod Changes
pub mod Waits
pub mod Tasks
pub mod Deaths
use Prim.Native.String.{String}
use text.Mathlib.Text.{◌==◌ as str_eq}
use kube_portforward.Prelude.{
  ℕ, List, [], ◌∷◌, ◌++◌, Option, none, some, Bool, true, false, not, ◌&&◌, ◌||◌, if◌then◌else◌,
}

pub data PodSelector : Type 0 where
  name : String → PodSelector
  labels : String → PodSelector

pub data PodReadiness : Type 0 where
  ready running : PodReadiness

pub data PodChange : Type 0 where
  ready died : String → PodChange

pub record ReadyPod : Type 0 where
  pub name : String
  pub uid : Option String

-- What the code reads of `k8s_openapi`'s Pod.
pub record Condition : Type 0 where
  pub type_ : String
  pub status : String

pub record PodStatus : Type 0 where
  pub phase : Option String
  pub conditions : Option (List Condition)

pub record Pod : Type 0 where
  pub name_any : String
  pub uid : Option String
  pub deletion_timestamp : Option ℕ
  pub status : Option PodStatus

unfoldable pub same_text : Option String → Option String → Bool
same_text none none = true
same_text none (some t) = false
same_text (some s) none = false
same_text (some s) (some t) = str_eq s t

-- The derived `PartialEq` of `ReadyPod`.
unfoldable pub same_pod : ReadyPod → ReadyPod → Bool
same_pod a b = str_eq a.name b.name && same_text a.uid b.uid

unfoldable pub matches_selector : Pod → PodSelector → Bool
matches_selector pod (PodSelector.name wanted) = str_eq pod.name_any wanted
matches_selector pod (PodSelector.labels selector) = true

unfoldable pub any_ready : List Condition → Bool
any_ready [] = false
any_ready (c ∷ cs) = (str_eq c.type_ "Ready" && str_eq c.status "True") || any_ready cs

unfoldable pub is_none {ℓ} : {A : Type ℓ} → Option A → Bool
is_none none = true
is_none (some a) = false

unfoldable pub satisfies : PodReadiness → Pod → PodStatus → Bool
satisfies PodReadiness.running pod status = is_none pod.deletion_timestamp
satisfies PodReadiness.ready pod status =
    is_none pod.deletion_timestamp
    && elim status.conditions [ none ↦ false | some conditions ↦ any_ready conditions ]

unfoldable pub on_phase : PodReadiness → Pod → Option PodStatus → Bool
unfolding same_text satisfies
on_phase readiness pod none = false
on_phase readiness pod (some status) =
    if not (same_text status.phase (some "Running")) then false else satisfies readiness pod status

unfoldable pub is_pod_selected : Pod → PodSelector → PodReadiness → Bool
unfolding matches_selector on_phase
is_pod_selected pod selector readiness =
    if not (matches_selector pod selector) then false else on_phase readiness pod pod.status

-- The state of a `PodWatcher`: the reflector's store, the shared cell, and what was broadcast so far.
pub record PodWatcher : Type 0 where
  pub store : List Pod
  pub latest_ready : Option ReadyPod
  pub change_tx : List PodChange
  pub selector : PodSelector
  pub readiness : PodReadiness
  pub cancel : Bool

unfoldable pub identity : Pod → ReadyPod
identity pod = record { name = pod.name_any; uid = pod.uid }

-- `c.name == name && c.uid == uid`, of the cached pod.
unfoldable pub is_cached : Option ReadyPod → String → Option String → Bool
unfolding same_text
is_cached none pod_name pod_uid = false
is_cached (some c) pod_name pod_uid = str_eq c.name pod_name && same_text c.uid pod_uid

unfoldable pub keep_first : Option ReadyPod → Bool → Pod → Option ReadyPod
unfolding identity
keep_first (some first) selected pod = some first
keep_first none selected pod = if selected then some (identity pod) else none

-- The scan: whether it returned early, with the cached pod, or else the first selected pod.
unfoldable pub scan :
    Option ReadyPod
    → PodSelector
    → PodReadiness
    → Option ReadyPod
    → List Pod
    → Bool × Option ReadyPod
unfolding is_pod_selected is_cached keep_first
scan cached selector readiness first [] = (false, first)
scan cached selector readiness first (pod ∷ pods) =
    let selected = is_pod_selected pod selector readiness in
    let rest = scan cached selector readiness (keep_first first selected pod) pods in
    if selected && is_cached cached pod.name_any pod.uid then (true, cached) else rest

unfoldable pub ready_pod : PodWatcher → Option ReadyPod × PodWatcher
unfolding scan
ready_pod w =
    let (early, found) = scan w.latest_ready w.selector w.readiness none w.store in
    if early then (found, w) else (found, record w { latest_ready = found })

unfoldable pub has_running : PodSelector → List Pod → Bool
unfolding is_pod_selected
has_running selector [] = false
has_running selector (pod ∷ pods) =
    is_pod_selected pod selector PodReadiness.running || has_running selector pods

unfoldable pub has_running_pods : PodWatcher → Bool
unfolding has_running
has_running_pods w = has_running w.selector w.store

unfoldable pub contains : String → Option String → List Pod → Bool
unfolding same_text
contains pod_name pod_uid [] = false
contains pod_name pod_uid (pod ∷ pods) =
    (str_eq pod.name_any pod_name && same_text pod.uid pod_uid) || contains pod_name pod_uid pods

unfoldable pub contains_identity : String → Option String → PodWatcher → Bool
unfolding contains
contains_identity pod_name pod_uid w = contains pod_name pod_uid w.store

unfoldable pub has_changed : Option ReadyPod → ReadyPod → Bool
unfolding same_text
has_changed none pod = true
has_changed (some cur) pod =
    if str_eq cur.name pod.name then not (same_text cur.uid pod.uid) else false

unfoldable pub send_change : PodChange → PodWatcher → PodWatcher
send_change change w = record w { change_tx = w.change_tx ++ change ∷ [] }

-- The subscriber's task in `update_latest`: before it, after the load of the cell, and after the
-- store. Other tasks run in between.
pub data Updating : Type 0 where
  hearing : Updating
  comparing : ReadyPod → Option ReadyPod → Updating
  announcing : String → Updating

unfoldable pub load_latest : Pod → PodWatcher → Updating
unfolding is_pod_selected identity
load_latest pod w =
    if not (is_pod_selected pod w.selector w.readiness)
    then hearing
    else comparing (identity pod) w.latest_ready

unfoldable pub resume_update : Updating → PodWatcher → Updating × PodWatcher
unfolding has_changed send_change
resume_update hearing w = (hearing, w)
resume_update (comparing pod prev) w =
    if has_changed prev pod
    then (announcing pod.name, record w { latest_ready = some pod })
    else (hearing, w)
resume_update (announcing pod_name) w = (hearing, send_change (PodChange.ready pod_name) w)

-- The function when nothing runs in between.
unfoldable pub update_latest : Pod → PodWatcher → PodWatcher
unfolding load_latest resume_update
update_latest pod w =
    let (phase, stored) = resume_update (load_latest pod w) w in (resume_update phase stored).1

-- The reflector's task in `handle_deleted_pod`: before it, and after `rcu`, which is atomic, has taken
-- the pod out of the cell.
pub data Deleting : Type 0 where
  reflecting : Deleting
  reporting : String → Deleting

unfoldable pub take_latest : Pod → PodWatcher → Deleting × PodWatcher
unfolding is_cached
take_latest pod w =
    if is_cached w.latest_ready pod.name_any pod.uid
    then (reporting pod.name_any, record w { latest_ready = none })
    else (reflecting, w)

unfoldable pub resume_delete : Deleting → PodWatcher → Deleting × PodWatcher
unfolding send_change
resume_delete reflecting w = (reflecting, w)
resume_delete (reporting pod_name) w = (reflecting, send_change (PodChange.died pod_name) w)

-- The function when nothing runs in between.
unfoldable pub handle_deleted_pod : Pod → PodWatcher → PodWatcher
unfolding take_latest resume_delete
handle_deleted_pod pod w = let (phase, taken) = take_latest pod w in (resume_delete phase taken).1

-- A call of `ready_pod`: before it, after the load of the cell, and after the scan of the store.
pub data Looking : Type 0 where
  away : Looking
  loaded : Option ReadyPod → Looking
  scanned : Bool → Option ReadyPod → Looking

unfoldable pub resume_look : Looking → PodWatcher → Looking × PodWatcher
unfolding scan
resume_look away w = (loaded w.latest_ready, w)
resume_look (loaded cached) w =
    let (early, found) = scan cached w.selector w.readiness none w.store in (scanned early found, w)
resume_look (scanned early found) w = (away, if early then w else record w { latest_ready = found })

-- What the receiver of `subscribe` answers.
pub data Received : Type 0 where
  change : PodChange → Received
  lagged closed : Received

-- One turn of the waiting loop: the state that it finds, and which of the three branches are ready.
pub record Turn : Type 0 where
  pub watcher : PodWatcher
  pub deadline : Bool
  pub event : Option Received

pub data Waited : Type 0 where
  waiting : Waited
  returned : Option ReadyPod → Waited

unfoldable pub wakes : Received → Bool
wakes (change (PodChange.ready pod_name)) = true
wakes (change (PodChange.died pod_name)) = false
wakes lagged = true
wakes closed = false

unfoldable pub on_received : PodWatcher → Waited → Option Received → Waited
unfolding ready_pod wakes
on_received w rest none = rest
on_received w rest (some closed) = returned none
on_received w rest (some received) =
    if wakes received
    then elim (ready_pod w).0 [ some pod ↦ returned (some pod) | none ↦ rest ]
    else rest

unfoldable pub wait_loop : List Turn → Waited
unfolding on_received
wait_loop [] = waiting
wait_loop (turn ∷ turns) =
    let rest = wait_loop turns in
    if turn.watcher.cancel
    then returned none
    else if turn.deadline
    then returned none
    else on_received turn.watcher rest turn.event

unfoldable pub wait_for_ready_pod : PodWatcher → List Turn → Waited
unfolding ready_pod wait_loop
wait_for_ready_pod w turns =
    if w.cancel
    then returned none
    else elim (ready_pod w).0 [ some pod ↦ returned (some pod) | none ↦ wait_loop turns ]
