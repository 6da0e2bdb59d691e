-- ===== src/Pods/Chosen.antt =====
-- crates/kube-portforward/src/pod_watch.rs, `ready_pod`: the scan of the store against the selector.
use Prim.Native.String.{String}
use text.Mathlib.TextEquality.{eq_iff}
use kube_portforward.Prelude.{
  ◌≡◌, ◌↔◌, ◌⊎◌, inl, inr, sym, ap, ◌∙◌, List, [], ◌∷◌, Option, none, some, true, Option-cases,
  arith,
}
use kube_portforward.Pods.{
  Pod, PodSelector, PodReadiness, ReadyPod, PodWatcher, same_text, same_pod, satisfies, on_phase,
  is_pod_selected, is_cached, keep_first, identity, scan, ready_pod, has_running, has_running_pods,
  contains, contains_identity,
}

pub same_text_iff : (a b : Option String) → (same_text a b ≡ true) ↔ (a ≡ b)
unfolding same_text
same_text_iff none none = ground arith
same_text_iff none (some t) = ground arith
same_text_iff (some s) none = ground arith
same_text_iff (some s) (some t) = ground (arith, eq_iff s t)

pub same_pod_iff : (a b : ReadyPod) → (same_pod a b ≡ true) ↔ (a ≡ b)
unfolding same_pod
same_pod_iff a b = ground (arith, eq_iff a.name b.name, same_text_iff a.uid b.uid)

pub is_cached_iff :
    (cached : Option ReadyPod) (pod : Pod)
    → (is_cached cached pod.name_any pod.uid ≡ true) ↔ (cached ≡ some (identity pod))
unfolding is_cached identity
is_cached_iff none pod = ground arith
is_cached_iff (some c) pod = ground (arith, eq_iff c.name pod.name_any, same_text_iff c.uid pod.uid)

-- A pod of the list that is selected and has this identity.
abbrev pub Offers : PodSelector → PodReadiness → List Pod → ReadyPod → Type 0
Offers selector readiness [] p = ⊥
Offers selector readiness (pod ∷ pods) p =
    ((is_pod_selected pod selector readiness ≡ true) × (identity pod ≡ p))
    ⊎ Offers selector readiness pods p

module _ (selector : PodSelector) (readiness : PodReadiness) where
  scan_early :
      (cached first : Option ReadyPod) (pods : List Pod) (c : ReadyPod)
      → cached ≡ some c
      → Offers selector readiness pods c
      → scan cached selector readiness first pods ≡ (true, some c)
  unfolding scan
  scan_early cached first [] c e h = elim h [ ]
  scan_early cached first (pod ∷ pods) c e (inl found) = ground (arith, is_cached_iff cached pod)
  scan_early cached first (pod ∷ pods) c e (inr later) = ground (
    arith,
    scan_early cached (keep_first first (is_pod_selected pod selector readiness) pod) pods c e
        later,
  )

  scan-Offers :
      (cached first : Option ReadyPod) (pods : List Pod) (p : ReadyPod)
      → (scan cached selector readiness first pods).1 ≡ some p
      → (first ≡ some p) ⊎ Offers selector readiness pods p
  unfolding scan keep_first
  scan-Offers cached first [] p e = inl e
  scan-Offers cached first (pod ∷ pods) p e = ground (
    arith,
    is_cached_iff cached pod,
    scan-Offers cached (keep_first first (is_pod_selected pod selector readiness) pod) pods p,
  )

  -- The scan returns early with the cached pod alone.
  scan_flag :
      (cached first : Option ReadyPod) (pods : List Pod)
      → (scan cached selector readiness first pods).0 ≡ true
      → (scan cached selector readiness first pods).1 ≡ cached
  unfolding scan
  scan_flag cached first [] e = cc
  scan_flag cached first (pod ∷ pods) e =
      ground (
        arith,
        scan_flag cached (keep_first first (is_pod_selected pod selector readiness) pod) pods,
      )

  scan-none :
      (cached first : Option ReadyPod) (pods : List Pod) (p : ReadyPod)
      → (scan cached selector readiness first pods).1 ≡ none
      → (first ≡ none) × ¬ Offers selector readiness pods p
  unfolding scan keep_first
  scan-none cached first [] p e = (e, λ h. h)
  scan-none cached first (pod ∷ pods) p e = ground (
    arith,
    is_cached_iff cached pod,
    scan-none cached (keep_first first (is_pod_selected pod selector readiness) pod) pods p,
  )

-- What the watcher offers as a target, by its own selector and readiness.
abbrev pub Targets : PodWatcher → ReadyPod → Type 0
Targets w p = Offers w.selector w.readiness w.store p

answer-scan :
    (w : PodWatcher) → (ready_pod w).0 ≡ (scan w.latest_ready w.selector w.readiness none w.store).1
unfolding ready_pod
answer-scan w = ground arith

Targets-answer : (w : PodWatcher) (p : ReadyPod) → (ready_pod w).0 ≡ some p → Targets w p
Targets-answer w p e =
    ground (arith, answer-scan w, scan-Offers w.selector w.readiness w.latest_ready none w.store p)

-- For every watcher: the answer of `ready_pod` is what the cell holds afterwards, and nothing else
-- of the watcher changes; an answer is a pod of the store that the selector and the readiness
-- admit; there is none exactly when no pod of the store is admitted; and the pod that was cached
-- is the answer as long as the store still offers it, whatever stands before it.
pub ready_pod-Targets :
    (w : PodWatcher)
    → ((ready_pod w).1 ≡ record w { latest_ready = (ready_pod w).0 })
      × ((p : ReadyPod) → (ready_pod w).0 ≡ some p → Targets w p)
      × (((ready_pod w).0 ≡ none) ↔ ((p : ReadyPod) → ¬ Targets w p))
      × ((c : ReadyPod) → w.latest_ready ≡ some c → Targets w c → (ready_pod w).0 ≡ some c)
unfolding ready_pod
ready_pod-Targets w = (
  ground (arith, scan_flag w.selector w.readiness w.latest_ready none w.store),
  Targets-answer w,
  (
    λ e p.
        (scan-none w.selector w.readiness w.latest_ready none w.store p
          (sym (answer-scan w) ∙ e)).1,
    λ never. elim (Option-cases (ready_pod w).0) [
      | inl e ↦ e
      | inr (p, e) ↦ absurd (never p (Targets-answer w p e))
    ],
  ),
  λ c e h.
      answer-scan w
      ∙ ap (λ r. r.1) (scan_early w.selector w.readiness w.latest_ready none w.store c e h),
)

-- A pod that is ready is running.
selected_running :
    (pod : Pod) (selector : PodSelector) (readiness : PodReadiness)
    → is_pod_selected pod selector readiness ≡ true
    → is_pod_selected pod selector PodReadiness.running ≡ true
unfolding is_pod_selected on_phase satisfies
selected_running pod selector readiness e = ground arith

Offers-running :
    (selector : PodSelector) (readiness : PodReadiness) (pods : List Pod) (p : ReadyPod)
    → Offers selector readiness pods p
    → (has_running selector pods ≡ true) × (contains p.name p.uid pods ≡ true)
unfolding has_running contains identity
Offers-running selector readiness [] p h = elim h [ ]
Offers-running selector readiness (pod ∷ pods) p (inl (e, i)) = ground (
  arith,
  selected_running pod selector readiness,
  eq_iff pod.name_any p.name,
  same_text_iff pod.uid p.uid,
)
Offers-running selector readiness (pod ∷ pods) p (inr later) =
    ground (arith, Offers-running selector readiness pods p later)

-- While `ready_pod` answers with a pod, under whichever readiness, `has_running_pods` holds, and
-- `contains_identity` holds of the name and the uid that were answered.
pub ready_pod-has_running_pods :
    (w : PodWatcher) (p : ReadyPod)
    → (ready_pod w).0 ≡ some p
    → (has_running_pods w ≡ true) × (contains_identity p.name p.uid w ≡ true)
unfolding has_running_pods contains_identity
ready_pod-has_running_pods w p e =
    Offers-running w.selector w.readiness w.store p (Targets-answer w p e)
