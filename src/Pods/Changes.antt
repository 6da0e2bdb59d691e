-- ===== src/Pods/Changes.antt =====
-- crates/kube-portforward/src/pod_watch.rs, `ready_pod` and `update_latest`: the pod that is cached
-- without a message.
use text.Mathlib.TextEquality.{eq_iff}
use kube_portforward.Prelude.{◌≡◌, ◌⊎◌, ◌≢◌, ap, ◌∙◌, some, arith}
use kube_portforward.Pods.{
  Pod, ReadyPod, PodWatcher, away, resume_look, identity, ready_pod, has_changed, load_latest,
  resume_update, update_latest,
}
use kube_portforward.Pods.Chosen.{same_text_iff, ready_pod-Targets}

-- A call of `ready_pod` whose three steps nothing comes between.
resume_look-ready_pod :
    (w : PodWatcher)
    → let (phase, w1) = resume_look away w in
      let (phase', w2) = resume_look phase w1 in (resume_look phase' w2).1 ≡ (ready_pod w).1
unfolding resume_look ready_pod
resume_look-ready_pod w = ground arith

update_latest_silent :
    (w : PodWatcher) (p : ReadyPod) (pod : Pod)
    → w.latest_ready ≡ some p
    → (update_latest pod w ≡ w) ⊎ ((pod.name_any ≡ p.name) × (pod.uid ≢ p.uid))
unfolding update_latest load_latest resume_update has_changed identity
update_latest_silent w p pod e =
    ground (arith, eq_iff p.name pod.name_any, same_text_iff p.uid pod.uid)

-- Once `ready_pod` has answered with a pod, hearing of that pod sends nothing, and neither does
-- hearing of any other pod, except a pod of the same name with another uid: a waiter that
-- subscribed before is not woken by them. (Hearing is a run of `update_latest` after the answer, with
-- no other task between its steps.)
pub ready_pod-silences :
    (w : PodWatcher) (p : ReadyPod) (pod : Pod)
    → (ready_pod w).0 ≡ some p
    → (update_latest pod (ready_pod w).1 ≡ (ready_pod w).1)
      ⊎ ((pod.name_any ≡ p.name) × (pod.uid ≢ p.uid))
ready_pod-silences w p pod e =
    update_latest_silent (ready_pod w).1 p pod
      (ap (λ (v : PodWatcher). v.latest_ready) (ready_pod-Targets w).0 ∙ e)
