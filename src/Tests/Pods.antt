-- ===== src/Tests/Pods.antt =====
-- The theorems on the pod watcher at concrete inputs.
use kube_portforward.Prelude.{◌+◌, ◌≤◌, ◌≡◌, ◌≢◌, ◌↔◌, ◌⊎◌, refl, List, [], ◌∷◌, some, none, false}
use kube_portforward.Pods
use kube_portforward.Pods.{
  PodChange, handle_deleted_pod, load_latest, resume_update, take_latest, resume_delete, Pod,
  PodSelector, PodReadiness, ReadyPod, PodWatcher, PodStatus, Turn, lagged, returned, ready_pod,
  update_latest, contains_identity, wait_for_ready_pod,
}
use kube_portforward.Forwarder.{Forwarder, new_pool, opened}
use kube_portforward.Forwarder.Calls.{handle_pod_died}
use kube_portforward.Forwarder.Targets.{handle_pod_died-ready_pod}
use kube_portforward.Pods.Chosen.{Targets, ready_pod-Targets}
use kube_portforward.Pods.Changes.{ready_pod-silences}
use kube_portforward.Pods.Tasks.{
  Watching, start, Reach, started, later, heard, updated, deleted, reported,
}
use kube_portforward.Pods.Deaths.{deaths, dying, held, readies, coming, times, deaths-le-readies}
use kube_portforward.Pods.Waits.{Found, wait_for_ready_pod-Found}

abbrev up : PodStatus
up = record {
  phase = some "Running";
  conditions = some ((record { type_ = "Ready"; status = "True" }) ∷ []);
}

abbrev web : Pod
web = record { name_any = "web"; uid = some "1"; deletion_timestamp = none; status = some up }

abbrev old : Pod
old = record { name_any = "old"; uid = some "0"; deletion_timestamp = some 5; status = some up }

abbrev watcher : PodWatcher
watcher = record {
  store = old ∷ web ∷ [];
  latest_ready = none;
  change_tx = [];
  selector = PodSelector.labels "app=web";
  readiness = PodReadiness.ready;
  cancel = false;
}

abbrev pub ready_web : ReadyPod
ready_web = record { name = "web"; uid = some "1" }

web_answer : (ready_pod watcher).0 ≡ some ready_web
unfolding ready_pod Pods.is_none Pods.any_ready
web_answer = refl

ready_pod-Targets_example :
    ((ready_pod watcher).1 ≡ record watcher { latest_ready = (ready_pod watcher).0 })
    × ((p : ReadyPod) → (ready_pod watcher).0 ≡ some p → Targets watcher p)
    × (((ready_pod watcher).0 ≡ none) ↔ ((p : ReadyPod) → ¬ Targets watcher p))
    × ((c : ReadyPod)
        → watcher.latest_ready ≡ some c
        → Targets watcher c
        → (ready_pod watcher).0 ≡ some c)
ready_pod-Targets_example = ready_pod-Targets watcher

-- The subscriber hears of the pod and puts it into the cell; before it announces the pod, the
-- reflector takes the pod out again and reports its death.
abbrev hears : Watching
hears = record (start watcher) { subscriber = load_latest web watcher }

abbrev stores : Watching
stores = record hears {
  subscriber = (resume_update hears.subscriber hears.watcher).0;
  watcher = (resume_update hears.subscriber hears.watcher).1;
}

abbrev takes : Watching
takes = record stores {
  reflector = (take_latest web stores.watcher).0;
  watcher = (take_latest web stores.watcher).1;
}

abbrev reports : Watching
reports = record takes {
  reflector = (resume_delete takes.reflector takes.watcher).0;
  watcher = (resume_delete takes.reflector takes.watcher).1;
}

abbrev announces : Watching
announces = record reports {
  subscriber = (resume_update reports.subscriber reports.watcher).0;
  watcher = (resume_update reports.subscriber reports.watcher).1;
}

announces-Reach : Reach watcher announces
unfolding load_latest resume_update take_latest resume_delete
announces-Reach =
    later
      (later (later (later (later started (heard web refl)) updated) (deleted web refl)) reported)
      updated

-- The cell is empty, and the last message says that the pod is ready.
died_first :
    (announces.watcher.change_tx ≡ PodChange.died "web" ∷ PodChange.ready "web" ∷ [])
    × (announces.watcher.latest_ready ≡ none)
unfolding load_latest resume_update take_latest resume_delete Pods.is_none Pods.any_ready
died_first = (refl, refl)

-- The messages when the two tasks do not come between each other's steps.
in_turn :
    (handle_deleted_pod web (update_latest web watcher)).change_tx
    ≡ PodChange.ready "web" ∷ PodChange.died "web" ∷ []
unfolding update_latest handle_deleted_pod Pods.is_none Pods.any_ready
in_turn = refl

deaths-le-readies_example :
    deaths "web" announces.watcher.change_tx
      + dying "web" announces.reflector
      + held "web" announces.watcher.latest_ready
    ≤ readies "web" announces.watcher.change_tx
      + coming "web" announces.subscriber
      + times "web" announces.silent
deaths-le-readies_example = deaths-le-readies watcher announces "web" refl refl announces-Reach

ready_pod-silences_example :
    (update_latest web (ready_pod watcher).1 ≡ (ready_pod watcher).1)
    ⊎ ((web.name_any ≡ ready_web.name) × (web.uid ≢ ready_web.uid))
ready_pod-silences_example = ready_pod-silences watcher ready_web web web_answer

abbrev before : PodWatcher
before = record watcher { store = old ∷ [] }

abbrev turns_to_web : List Turn
turns_to_web =
    (record { watcher = before; deadline = false; event = some lagged })
    ∷ (record { watcher = watcher; deadline = false; event = some lagged })
    ∷ []

web_waited : wait_for_ready_pod before turns_to_web ≡ returned (some ready_web)
unfolding wait_for_ready_pod Pods.is_none Pods.any_ready
web_waited = refl

wait_for_ready_pod-Found_example :
    (before.cancel ≡ false) × (Targets before ready_web ⊎ Found turns_to_web ready_web)
wait_for_ready_pod-Found_example = wait_for_ready_pod-Found before turns_to_web ready_web web_waited

-- A pool whose target is the pod that the watcher answers with.
abbrev on_web : Forwarder
on_web = record {
  pool = record new_pool { target = some ready_web };
  sessions = λ at. opened ready_web 80 1;
  fresh = 0;
  prefetches = [];
  replenishes = [];
}

handle_pod_died-ready_pod_example :
    handle_pod_died (λ pod_name uid. contains_identity pod_name uid watcher) "web" on_web
    ≡ (false, on_web)
handle_pod_died-ready_pod_example =
    handle_pod_died-ready_pod watcher ready_web "web" on_web web_answer refl
