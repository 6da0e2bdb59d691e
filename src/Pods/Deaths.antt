-- ===== src/Pods/Deaths.antt =====
-- crates/kube-portforward/src/pod_watch.rs: how often subscribers are told that a pod has died.
use Prim.Native.String.{String}
use text.Mathlib.Text.{◌==◌ as str_eq}
use kube_portforward.Prelude.{
  ℕ, ◌+◌, ◌≤◌, ◌≡◌, refl, List, [], ◌∷◌, ◌++◌, Option, none, some, true, false, arith,
  if◌then◌else◌,
}
use kube_portforward.Prelude.Maps.{update}
use kube_portforward.Pods.{
  Pod, PodChange, ReadyPod, PodWatcher, Updating, hearing, comparing, announcing, load_latest,
  resume_update, Deleting, reflecting, reporting, take_latest, resume_delete, Looking, away, loaded,
  scanned, resume_look, identity, send_change,
}
use kube_portforward.Pods.Chosen.{is_cached_iff}
use kube_portforward.Pods.Tasks.{
  Watching, silent_stores, Step, heard, updated, deleted, reported, looked, reflected, Reach,
  started, later,
}

-- One if it is this name.
unfoldable pub one : String → String → ℕ
one wanted pod_name = if str_eq pod_name wanted then 1 else 0

-- How often the name is said to have died, and to have become ready.
unfoldable pub deaths : String → List PodChange → ℕ
unfolding one
deaths wanted [] = 0
deaths wanted (PodChange.died pod_name ∷ changes) = one wanted pod_name + deaths wanted changes
deaths wanted (PodChange.ready pod_name ∷ changes) = deaths wanted changes

unfoldable pub readies : String → List PodChange → ℕ
unfolding one
readies wanted [] = 0
readies wanted (PodChange.ready pod_name ∷ changes) = one wanted pod_name + readies wanted changes
readies wanted (PodChange.died pod_name ∷ changes) = readies wanted changes

unfoldable pub times : String → List String → ℕ
unfolding one
times wanted [] = 0
times wanted (pod_name ∷ names) = one wanted pod_name + times wanted names

-- The cell holds the name; the reflector is about to report it; the subscriber is about to announce
-- it.
unfoldable pub held : String → Option ReadyPod → ℕ
unfolding one
held wanted none = 0
held wanted (some pod) = one wanted pod.name

unfoldable pub dying : String → Deleting → ℕ
unfolding one
dying wanted reflecting = 0
dying wanted (reporting pod_name) = one wanted pod_name

unfoldable pub coming : String → Updating → ℕ
unfolding one
coming wanted hearing = 0
coming wanted (comparing pod prev) = 0
coming wanted (announcing pod_name) = one wanted pod_name

deaths-append :
    (wanted : String) (changes more : List PodChange)
    → deaths wanted (changes ++ more) ≡ deaths wanted changes + deaths wanted more
unfolding deaths
deaths-append wanted [] more = omega arith
deaths-append wanted (PodChange.died pod_name ∷ changes) more =
    omega (arith, deaths-append wanted changes more)
deaths-append wanted (PodChange.ready pod_name ∷ changes) more = deaths-append wanted changes more

readies-append :
    (wanted : String) (changes more : List PodChange)
    → readies wanted (changes ++ more) ≡ readies wanted changes + readies wanted more
unfolding readies
readies-append wanted [] more = omega arith
readies-append wanted (PodChange.ready pod_name ∷ changes) more =
    omega (arith, readies-append wanted changes more)
readies-append wanted (PodChange.died pod_name ∷ changes) more = readies-append wanted changes more

-- Each death that was or will be reported, and the pod in the cell, has its announcement or was put
-- there silently.
abbrev pub IsMatched : String → Watching → Type 0
IsMatched wanted s =
    deaths wanted s.watcher.change_tx
      + dying wanted s.reflector
      + held wanted s.watcher.latest_ready
    ≤ readies wanted s.watcher.change_tx + coming wanted s.subscriber + times wanted s.silent

heard-IsMatched :
    (wanted : String) (pod : Pod) (s : Watching)
    → s.subscriber ≡ hearing
    → IsMatched wanted s
    → IsMatched wanted (record s { subscriber = load_latest pod s.watcher })
unfolding load_latest coming
heard-IsMatched wanted pod s idle m = ground arith

updated-IsMatched :
    (wanted : String) (phase : Updating) (s : Watching)
    → s.subscriber ≡ phase
    → IsMatched wanted s
    → IsMatched wanted (record s {
      subscriber = (resume_update phase s.watcher).0;
      watcher = (resume_update phase s.watcher).1;
    })
unfolding resume_update send_change coming held readies deaths
updated-IsMatched wanted hearing s e m = ground arith
updated-IsMatched wanted (comparing pod prev) s e m = ground arith
updated-IsMatched wanted (announcing pod_name) s e m = ground (
  arith,
  readies-append wanted s.watcher.change_tx (PodChange.ready pod_name ∷ []),
  deaths-append wanted s.watcher.change_tx (PodChange.ready pod_name ∷ []),
)

deleted-IsMatched :
    (wanted : String) (pod : Pod) (s : Watching)
    → s.reflector ≡ reflecting
    → IsMatched wanted s
    → IsMatched wanted (record s {
      reflector = (take_latest pod s.watcher).0;
      watcher = (take_latest pod s.watcher).1;
    })
unfolding take_latest dying held one identity
deleted-IsMatched wanted pod s idle m = ground (arith, is_cached_iff s.watcher.latest_ready pod)

reported-IsMatched :
    (wanted : String) (phase : Deleting) (s : Watching)
    → s.reflector ≡ phase
    → IsMatched wanted s
    → IsMatched wanted (record s {
      reflector = (resume_delete phase s.watcher).0;
      watcher = (resume_delete phase s.watcher).1;
    })
unfolding resume_delete send_change dying readies deaths
reported-IsMatched wanted reflecting s e m = ground arith
reported-IsMatched wanted (reporting pod_name) s e m = ground (
  arith,
  readies-append wanted s.watcher.change_tx (PodChange.died pod_name ∷ []),
  deaths-append wanted s.watcher.change_tx (PodChange.died pod_name ∷ []),
)

looked-IsMatched :
    (wanted : String) (i : ℕ) (phase : Looking) (s : Watching)
    → IsMatched wanted s
    → IsMatched wanted (record s {
      looks = update s.looks i (resume_look phase s.watcher).0;
      watcher = (resume_look phase s.watcher).1;
      silent = silent_stores phase ++ s.silent;
    })
unfolding resume_look silent_stores held times
looked-IsMatched wanted i away s m = m
looked-IsMatched wanted i (loaded cached) s m = m
looked-IsMatched wanted i (scanned true found) s m = m
looked-IsMatched wanted i (scanned false none) s m = omega arith
looked-IsMatched wanted i (scanned false (some pod)) s m = omega arith

Step-IsMatched :
    (wanted : String) {s t : Watching} → Step s t → IsMatched wanted s → IsMatched wanted t
Step-IsMatched wanted {s} (heard pod idle) m = heard-IsMatched wanted pod s idle m
Step-IsMatched wanted {s} updated m = updated-IsMatched wanted s.subscriber s refl m
Step-IsMatched wanted {s} (deleted pod idle) m = deleted-IsMatched wanted pod s idle m
Step-IsMatched wanted {s} reported m = reported-IsMatched wanted s.reflector s refl m
Step-IsMatched wanted {s} (looked i) m = looked-IsMatched wanted i (s.looks i) s m
Step-IsMatched wanted {s} (reflected pods) m = m

-- However the reflector's task, the subscriber's task and calls of `ready_pod` interleave, between the
-- load, the store and the send of `update_latest`, between the exchange and the send of
-- `handle_deleted_pod`, and between the load, the scan and the store of `ready_pod`, from an empty
-- cell with nothing sent: the reports that a name has died, those sent and one that is about to be,
-- with one more while the cell holds the name, are no more than the announcements that it became
-- ready, those sent and one that is about to be, and the times that `ready_pod` has put the name into
-- the cell without announcing it.
pub deaths-le-readies :
    (w : PodWatcher) (s : Watching) (wanted : String)
    → w.latest_ready ≡ none
    → w.change_tx ≡ []
    → Reach w s
    → deaths wanted s.watcher.change_tx
        + dying wanted s.reflector
        + held wanted s.watcher.latest_ready
      ≤ readies wanted s.watcher.change_tx + coming wanted s.subscriber + times wanted s.silent
unfolding deaths dying held
deaths-le-readies w s wanted empty unsent started = ground arith
deaths-le-readies w s wanted empty unsent (later {s = before} r step) =
    Step-IsMatched wanted step (deaths-le-readies w before wanted empty unsent r)
