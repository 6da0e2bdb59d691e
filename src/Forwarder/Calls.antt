-- ===== src/Forwarder/Calls.antt =====
-- crates/kube-portforward/src/forwarder/lifecycle.rs: the death of a pod, and
-- `ensure_session_for_pod` as a machine with one phase for each place where other calls and tasks
-- run: before each `await` and each lock.
use Prim.Native.String.{String}
use text.Mathlib.Text.{◌==◌ as str_eq}
use kube_portforward.Prelude.{ℕ, Option, none, some, Bool, true, false, not, if◌then◌else◌}
use kube_portforward.Pods.{ReadyPod}
use kube_portforward.Forwarder.{
  ForwardError, configuration, network, ForwarderConfig, Forwarder, drain_to, is_target,
  find_reusable_session, retire_dead_sessions, has_in_flight_open, reserve_new_slot, drop_slot,
  open_session, install_if_current, cancel,
}
use kube_portforward.Forwarder.Prefetches.{maybe_prefetch}

unfoldable pub names : Option ReadyPod → String → Bool
names none dead = false
names (some target) dead = str_eq target.name dead

unfoldable pub uid_of : Option ReadyPod → Option String
uid_of none = none
uid_of (some target) = target.uid

-- `contains_identity` is the watcher's; the result says whether the pool was drained.
unfoldable pub handle_pod_died :
    (String → Option String → Bool) → String → Forwarder → Bool × Forwarder
unfolding names uid_of drain_to
handle_pod_died contains_identity dead f =
    if not (names f.pool.target dead)
    then (false, f)
    else if contains_identity dead (uid_of f.pool.target)
    then (false, f)
    else (true, drain_to none f)

-- `retry` says that a stale opening is tried once more.
pub data Phase : Type 0 where
  idle : Phase
  resolving : Bool → Phase
  checking switching reusing retiring finding gate waiting reserving acquiring opening :
      ReadyPod → Bool → Phase
  prefetching filling returned : ℕ → ReadyPod → Phase
  failed : ForwardError → Phase

pub data Permit : Type 0 where
  granted semaphore_closed timed_out : Permit

-- The operating capacity of the session that the client opened, or its error.
pub data Opening : Type 0 where
  connected : ℕ → Opening
  refused : ForwardError → Opening

-- What the awaited futures answer: the watcher, the semaphore, the client and the clock.
pub record Answers : Type 0 where
  pub ready : Option ReadyPod
  pub permit : Permit
  pub session : Opening
  pub now : ℕ

abbrev pub on_ready : Bool → Option ReadyPod → Phase
on_ready retry none = failed (configuration "no ready pod available")
on_ready retry (some pod) = checking pod retry

unfoldable pub switch_target : ReadyPod → Forwarder → Forwarder
unfolding is_target drain_to
switch_target pod f = if is_target f.pool.target pod then f else drain_to (some pod) f

-- A session that was found is returned after `maybe_prefetch`.
abbrev pub or_reuse : ReadyPod → Option ℕ → Phase → Phase
or_reuse pod none otherwise = otherwise
or_reuse pod (some at) otherwise = prefetching at pod

abbrev pub on_reserved : Option ForwardError → ReadyPod → Bool → Phase
on_reserved none pod retry = acquiring pod retry
on_reserved (some e) pod retry = failed e

abbrev pub release_slot : Forwarder → Forwarder
release_slot f = record f { pool = drop_slot f.pool }

abbrev pub on_permit : Permit → ReadyPod → Bool → Forwarder → Phase × Forwarder
on_permit granted pod retry f = (opening pod retry, f)
on_permit semaphore_closed pod retry f =
    (failed (network "connection slot semaphore closed"), release_slot f)
on_permit timed_out pod retry f =
    (failed (network "timed out waiting for connection slot"), release_slot f)

abbrev pub on_stale : Bool → Phase
on_stale retry =
    if retry
    then resolving false
    else failed (configuration "target pod changed while opening a session")

-- `at` is the address of the session that was opened.
abbrev pub on_install : ℕ → ReadyPod → Bool → ℕ → Forwarder → Phase × Forwarder
on_install at pod retry now f =
    let (installed, pool) = install_if_current pod at now f.pool in
    if installed
    then (filling at pod, record f { pool = pool })
    else (on_stale retry, release_slot (record f { sessions = cancel at f.sessions }))

abbrev pub on_opening : Opening → ℕ → ReadyPod → Bool → ℕ → Forwarder → Phase × Forwarder
on_opening (refused e) target_port pod retry now f = (failed e, release_slot f)
on_opening (connected capacity) target_port pod retry now f =
    on_install f.fresh pod retry now (open_session pod target_port capacity f)

-- One stretch of `ensure_session_for_pod`, up to the next phase.
unfoldable pub resume : ForwarderConfig → ℕ → Answers → Phase → Forwarder → Phase × Forwarder
unfolding is_target switch_target find_reusable_session retire_dead_sessions has_in_flight_open
    reserve_new_slot drop_slot install_if_current open_session cancel maybe_prefetch
resume config port answers idle f = (idle, f)
resume config port answers (resolving retry) f = (on_ready retry answers.ready, f)
resume config port answers (checking pod retry) f =
    (if is_target f.pool.target pod then reusing pod retry else switching pod retry, f)
resume config port answers (switching pod retry) f = (reusing pod retry, switch_target pod f)
resume config port answers (reusing pod retry) f =
    (or_reuse pod (find_reusable_session port f) (retiring pod retry), f)
resume config port answers (retiring pod retry) f = (finding pod retry, retire_dead_sessions f)
resume config port answers (finding pod retry) f =
    (or_reuse pod (find_reusable_session port f) (gate pod retry), f)
resume config port answers (gate pod retry) f =
    (if has_in_flight_open f.pool then waiting pod retry else reserving pod retry, f)
resume config port answers (waiting pod retry) f =
    (or_reuse pod (find_reusable_session port f) (reserving pod retry), f)
resume config port answers (reserving pod retry) f =
    let (e, pool) = reserve_new_slot config f.pool in
    (on_reserved e pod retry, record f { pool = pool })
resume config port answers (acquiring pod retry) f = on_permit answers.permit pod retry f
resume config port answers (opening pod retry) f =
    on_opening answers.session port pod retry answers.now f
resume config port answers (prefetching at pod) f =
    (returned at pod, maybe_prefetch config at port pod f)
resume config port answers (filling at pod) f =
    (returned at pod, release_slot (maybe_prefetch config at port pod f))
resume config port answers (returned at pod) f = (returned at pod, f)
resume config port answers (failed e) f = (failed e, f)
