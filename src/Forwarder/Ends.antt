-- ===== src/Forwarder/Ends.antt =====
-- crates/kube-portforward/src/forwarder/lifecycle.rs, `ensure_session_for_pod`: the number of
-- stretches of one call.
use kube_portforward.Prelude.{
  ℕ, ◌+◌, ◌-◌, ◌≤◌, ◌≡◌, refl, List, [], ◌∷◌, Option, none, some, Bool, true, false, length, arith,
  if◌then◌else◌, Bool-cases, inl, inr,
}
use kube_portforward.Pods.{ReadyPod}
use kube_portforward.Forwarder.{
  ForwarderConfig, Forwarder, ForwardError, is_target, find_reusable_session, install_if_current,
  reserve_new_slot, open_session,
}
use kube_portforward.Forwarder.Calls.{
  Phase, idle, resolving, checking, switching, reusing, retiring, finding, gate, waiting, reserving,
  acquiring, opening, prefetching, filling, returned, failed, Answers, Permit, granted,
  semaphore_closed, timed_out, Opening, connected, refused, on_permit, on_install, on_opening,
  on_ready, or_reuse, on_stale, on_reserved, resume,
}
use kube_portforward.Forwarder.System.{is_over}

-- A call finds its answers and the shared state as they are when it goes on, after whatever the
-- other calls and tasks have done in between.
pub phase_after : ForwarderConfig → ℕ → List (Answers × Forwarder) → Phase → Phase
phase_after config port [] phase = phase
phase_after config port ((answers, f) ∷ turns) phase =
    phase_after config port turns (resume config port answers phase f).0

-- The retry is worth a whole round.
abbrev round : Bool → ℕ
round retry = if retry then 12 else 0

-- The stretches that are left at most.
left : Phase → ℕ
left (resolving retry) = 12 + round retry
left (checking pod retry) = 11 + round retry
left (switching pod retry) = 10 + round retry
left (reusing pod retry) = 9 + round retry
left (retiring pod retry) = 8 + round retry
left (finding pod retry) = 7 + round retry
left (gate pod retry) = 6 + round retry
left (waiting pod retry) = 5 + round retry
left (reserving pod retry) = 4 + round retry
left (acquiring pod retry) = 3 + round retry
left (opening pod retry) = 2 + round retry
left (prefetching at pod) = 1
left (filling at pod) = 1
left other = 0

left-or_reuse :
    (pod : ReadyPod) (found : Option ℕ) (phase : Phase)
    → 1 ≤ left phase
    → left (or_reuse pod found phase) ≤ left phase
unfolding left
left-or_reuse pod none phase h = omega arith
left-or_reuse pod (some at) phase h = h

left-on_stale : (retry : Bool) → left (on_stale retry) ≤ round retry
unfolding left
left-on_stale true = omega arith
left-on_stale false = omega arith

left-on_install :
    (at : ℕ) (pod : ReadyPod) (retry : Bool) (now : ℕ) (f : Forwarder)
    → left (on_install at pod retry now f).0 ≤ 1 + round retry
unfolding left install_if_current
left-on_install at pod retry now f = elim (Bool-cases (is_target f.pool.target pod)) [
  | inl e ↦ rw (e, install_if_current) (omega arith)
  | inr e ↦ rw (e, install_if_current) (omega (arith, left-on_stale retry))
]

left-on_ready :
    (retry : Bool) (ready : Option ReadyPod) → left (on_ready retry ready) ≤ 11 + round retry
unfolding left
left-on_ready retry none = omega arith
left-on_ready retry (some pod) = omega arith

left-on_reserved :
    (e : Option ForwardError) (pod : ReadyPod) (retry : Bool)
    → left (on_reserved e pod retry) ≤ 3 + round retry
unfolding left
left-on_reserved none pod retry = omega arith
left-on_reserved (some e) pod retry = omega arith

left-on_permit :
    (permit : Permit) (pod : ReadyPod) (retry : Bool) (f : Forwarder)
    → left (on_permit permit pod retry f).0 ≤ 2 + round retry
unfolding left
left-on_permit granted pod retry f = omega arith
left-on_permit semaphore_closed pod retry f = omega arith
left-on_permit timed_out pod retry f = omega arith

left-on_opening :
    (answer : Opening) (port : ℕ) (pod : ReadyPod) (retry : Bool) (now : ℕ) (f : Forwarder)
    → left (on_opening answer port pod retry now f).0 ≤ 1 + round retry
unfolding left
left-on_opening (refused e) port pod retry now f = omega arith
left-on_opening (connected capacity) port pod retry now f =
    left-on_install f.fresh pod retry now (open_session pod port capacity f)

-- Every stretch leaves fewer.
left-resume :
    (config : ForwarderConfig) (port : ℕ) (answers : Answers) (phase : Phase) (f : Forwarder)
    → left (resume config port answers phase f).0 ≤ left phase - 1
unfolding resume left
left-resume config port answers (resolving retry) f =
    omega (arith, left-on_ready retry answers.ready)
left-resume config port answers (checking pod retry) f = ground arith
left-resume config port answers (reusing pod retry) f =
    omega
      (arith, left-or_reuse pod (find_reusable_session port f) (retiring pod retry) (omega arith))
left-resume config port answers (finding pod retry) f =
    omega (arith, left-or_reuse pod (find_reusable_session port f) (gate pod retry) (omega arith))
left-resume config port answers (gate pod retry) f = ground arith
left-resume config port answers (waiting pod retry) f =
    omega
      (arith, left-or_reuse pod (find_reusable_session port f) (reserving pod retry) (omega arith))
left-resume config port answers (reserving pod retry) f =
    omega (arith, left-on_reserved (reserve_new_slot config f.pool).0 pod retry)
left-resume config port answers (acquiring pod retry) f =
    omega (arith, left-on_permit answers.permit pod retry f)
left-resume config port answers (opening pod retry) f =
    omega (arith, left-on_opening answers.session port pod retry answers.now f)
left-resume config port answers phase f = omega arith

over_at_zero : (phase : Phase) → left phase ≡ 0 → is_over phase ≡ true
unfolding left is_over
over_at_zero idle e = refl
over_at_zero (returned at pod) e = refl
over_at_zero (failed problem) e = refl
over_at_zero phase e = absurd (omega arith)

left-phase_after :
    (config : ForwarderConfig) (port : ℕ) (turns : List (Answers × Forwarder)) (phase : Phase)
    → left (phase_after config port turns phase) ≤ left phase - length turns
unfolding phase_after
left-phase_after config port [] phase = omega arith
left-phase_after config port ((answers, f) ∷ turns) phase = omega (
  arith,
  left-phase_after config port turns (resume config port answers phase f).0,
  left-resume config port answers phase f,
)

-- Whatever the other calls and tasks do to the shared state between its stretches, and whatever its
-- futures answer, a call of `ensure_session_for_pod` has ended after 24 stretches: it has returned a
-- session or failed.
pub phase_after_ends :
    (config : ForwarderConfig) (port : ℕ) (turns : List (Answers × Forwarder))
    → 24 ≤ length turns
    → is_over (phase_after config port turns (resolving true)) ≡ true
unfolding left
phase_after_ends config port turns h =
    over_at_zero (phase_after config port turns (resolving true))
      (omega (arith, left-phase_after config port turns (resolving true)))
