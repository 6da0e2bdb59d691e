-- ===== src/Pods/Tasks.antt =====
-- crates/kube-portforward/src/pod_watch.rs: the reflector's and the subscriber's task of a PodWatcher,
-- and any number of calls of `ready_pod`, interleaved in any order. The reflector also changes the
-- store, at any time and in any way.
use Prim.Native.String.{String}
use kube_portforward.Prelude.{ℕ, ◌≡◌, List, [], ◌∷◌, ◌++◌, some, false}
use kube_portforward.Prelude.Maps.{update}
use kube_portforward.Pods.{
  Pod, PodWatcher, Updating, hearing, load_latest, resume_update, Deleting, reflecting, take_latest,
  resume_delete, Looking, away, scanned, resume_look,
}

-- `silent` keeps a record of the names that calls of `ready_pod` have put into the cell.
pub record Watching : Type 0 where
  pub watcher : PodWatcher
  pub subscriber : Updating
  pub reflector : Deleting
  pub looks : ℕ → Looking
  pub silent : List String

-- What a call of `ready_pod` is about to put into the cell.
unfoldable pub silent_stores : Looking → List String
silent_stores (scanned false (some pod)) = pod.name ∷ []
silent_stores phase = []

pub data Step (s : Watching) : Watching → Type 0 where
  heard :
      (pod : Pod)
      → s.subscriber ≡ hearing
      → Step s (record s { subscriber = load_latest pod s.watcher })
  updated : Step s (record s {
    subscriber = (resume_update s.subscriber s.watcher).0;
    watcher = (resume_update s.subscriber s.watcher).1;
  })
  deleted :
      (pod : Pod)
      → s.reflector ≡ reflecting
      → Step s (record s {
        reflector = (take_latest pod s.watcher).0;
        watcher = (take_latest pod s.watcher).1;
      })
  reported : Step s (record s {
    reflector = (resume_delete s.reflector s.watcher).0;
    watcher = (resume_delete s.reflector s.watcher).1;
  })
  looked :
      (i : ℕ)
      → Step s (record s {
        looks = update s.looks i (resume_look (s.looks i) s.watcher).0;
        watcher = (resume_look (s.looks i) s.watcher).1;
        silent = silent_stores (s.looks i) ++ s.silent;
      })
  reflected :
      (pods : List Pod) → Step s (record s { watcher = record (s.watcher) { store = pods } })

abbrev pub start : PodWatcher → Watching
start w = record {
  watcher = w;
  subscriber = hearing;
  reflector = reflecting;
  looks = λ i. away;
  silent = [];
}

pub data Reach (w : PodWatcher) : Watching → Type 0 where
  started : Reach w (start w)
  later : {s t : Watching} → Reach w s → Step s t → Reach w t
