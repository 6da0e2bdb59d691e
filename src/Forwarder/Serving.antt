-- ===== src/Forwarder/Serving.antt =====
-- crates/kube-portforward/src/forwarder: the session that a call ends with.
use kube_portforward.Prelude.{
  ℕ, ◌<◌, ◌≡◌, sym, ap, ◌∙◌, List, [], ◌∷◌, Option, none, some, Bool, true, false, arith,
  if◌then◌else◌, Bool-cases, Option-cases, inl, inr,
}
use kube_portforward.Pods.{ReadyPod}
use kube_portforward.Forwarder.{
  Session, PooledSession, ForwarderConfig, Forwarder, addresses, is_target, find_serving,
  find_reusable_session, session_serves, open_session, cancel, install_if_current,
  has_in_flight_open, ForwardError, reserve_new_slot,
}
use kube_portforward.Forwarder.Calls.{
  Phase, idle, resolving, checking, switching, reusing, retiring, finding, gate, waiting, reserving,
  acquiring, opening, prefetching, filling, returned, failed, Answers, Permit, granted,
  semaphore_closed, timed_out, Opening, connected, refused, on_permit, on_install, on_opening,
  on_ready, or_reuse, on_stale, on_reserved, resume, release_slot,
}
use kube_portforward.Forwarder.Grows.{Extends, resume-Extends}
use kube_portforward.Forwarder.Pool.{Owned, Inv, open_session_there}

-- The session exists and was opened for this port.
abbrev pub IsFor : ℕ → Forwarder → ℕ → Type 0
IsFor port f at = (at < f.fresh) × ((f.sessions at).port ≡ port)

-- The session that a phase ends with, if it has one, is for the port.
abbrev pub Serves : ℕ → Forwarder → Phase → Type 0
Serves port f (prefetching at pod) = IsFor port f at
Serves port f (filling at pod) = IsFor port f at
Serves port f (returned at pod) = IsFor port f at
Serves port f phase = Unit

IsFor-Extends :
    (port : ℕ) (f g : Forwarder) (at : ℕ) → Extends f g → IsFor port f at → IsFor port g at
IsFor-Extends port f g at x (lt, is) = (omega (arith, x.grows), (x.keeps at lt).same_port ∙ is)

pub Serves-Extends :
    (port : ℕ) (f g : Forwarder) (phase : Phase)
    → Extends f g
    → Serves port f phase
    → Serves port g phase
Serves-Extends port f g (prefetching at pod) x s = IsFor-Extends port f g at x s
Serves-Extends port f g (filling at pod) x s = IsFor-Extends port f g at x s
Serves-Extends port f g (returned at pod) x s = IsFor-Extends port f g at x s
Serves-Extends port f g phase x s = tt

-- What the search of the snapshot finds: a session of the pool that can carry a stream to the port.
find_serving-Owned :
    (target : Option ReadyPod) (sessions : ℕ → Session) (fresh port : ℕ)
    (entries : List PooledSession) (at : ℕ)
    → Owned target sessions fresh entries
    → find_serving (addresses entries) sessions port ≡ some at
    → (at < fresh) × (target ≡ some (sessions at).pod) × (session_serves (sessions at) port ≡ true)
unfolding find_serving
find_serving-Owned target sessions fresh port [] at o e = cc
find_serving-Owned target sessions fresh port (x ∷ entries) at (lt, is, o) e =
    ground (arith, find_serving-Owned target sessions fresh port entries at o)

-- The parts of the invariant that the search relies on.
pub find_reusable_session-Owned :
    (limit pending port : ℕ) (f : Forwarder) (at : ℕ)
    → Inv limit pending f
    → find_reusable_session port f ≡ some at
    → (at < f.fresh)
      × (f.pool.target ≡ some (f.sessions at).pod)
      × (session_serves (f.sessions at) port ≡ true)
unfolding find_reusable_session
find_reusable_session-Owned limit pending port f at v e =
    find_serving-Owned f.pool.target f.sessions f.fresh port f.pool.entries at v.owned
      (ap (λ (snapshot : List ℕ). find_serving snapshot f.sessions port) (sym v.fresh_snapshot) ∙ e)

session_serves-port : (s : Session) (port : ℕ) → session_serves s port ≡ true → s.port ≡ port
unfolding session_serves
session_serves-port s port e = ground arith

or_reuse-Serves :
    (limit pending port : ℕ) (pod : ReadyPod) (otherwise : Phase) (f : Forwarder)
    → Inv limit pending f
    → Serves port f otherwise
    → Serves port f (or_reuse pod (find_reusable_session port f) otherwise)
or_reuse-Serves limit pending port pod otherwise f v s =
    elim (Option-cases (find_reusable_session port f)) [
      | inl e ↦ rw e s
      | inr (at, e) ↦
          let found = find_reusable_session-Owned limit pending port f at v e in
          rw e (found.0, session_serves-port (f.sessions at) port found.2)
    ]

-- A phase that has no session yet, whatever becomes of the pool.
abbrev HasNone : Phase → Type 0
HasNone phase = (port : ℕ) (f : Forwarder) → Serves port f phase

if-HasNone : (b : Bool) (p q : Phase) → HasNone p → HasNone q → HasNone (if b then p else q)
if-HasNone true p q hp hq = hp
if-HasNone false p q hp hq = hq

on_stale-HasNone : (retry : Bool) → HasNone (on_stale retry)
on_stale-HasNone retry = if-HasNone retry _ _ (λ port f. tt) (λ port f. tt)

on_ready-HasNone : (retry : Bool) (ready : Option ReadyPod) → HasNone (on_ready retry ready)
on_ready-HasNone retry none port f = tt
on_ready-HasNone retry (some pod) port f = tt

on_reserved-HasNone :
    (e : Option ForwardError) (pod : ReadyPod) (retry : Bool) → HasNone (on_reserved e pod retry)
on_reserved-HasNone none pod retry port f = tt
on_reserved-HasNone (some e) pod retry port f = tt

on_permit-HasNone :
    (permit : Permit) (pod : ReadyPod) (retry : Bool) (f : Forwarder)
    → HasNone (on_permit permit pod retry f).0
on_permit-HasNone granted pod retry f port g = tt
on_permit-HasNone semaphore_closed pod retry f port g = tt
on_permit-HasNone timed_out pod retry f port g = tt

on_install-Serves :
    (at : ℕ) (pod : ReadyPod) (retry : Bool) (now port : ℕ) (f : Forwarder)
    → IsFor port f at
    → Serves port (on_install at pod retry now f).1 (on_install at pod retry now f).0
unfolding install_if_current
on_install-Serves at pod retry now port f s = elim (Bool-cases (is_target f.pool.target pod)) [
  | inl e ↦ rw (e, install_if_current) s
  | inr e ↦
      rw (e, install_if_current)
        (on_stale-HasNone retry port (release_slot (record f { sessions = cancel at f.sessions })))
]

on_opening-Serves :
    (answer : Opening) (port : ℕ) (pod : ReadyPod) (retry : Bool) (now : ℕ) (f : Forwarder)
    → Serves port
        (on_opening answer port pod retry now f).1
        (on_opening answer port pod retry now f).0
on_opening-Serves (refused e) port pod retry now f = tt
on_opening-Serves (connected capacity) port pod retry now f =
    let there = open_session_there pod port capacity f in
    on_install-Serves f.fresh pod retry now port (open_session pod port capacity f)
      (there.0, there.2)

-- Going from phase to phase a call does not come to a session of another port.
pub resume-Serves :
    (config : ForwarderConfig) (port limit pending : ℕ) (answers : Answers) (phase : Phase)
    (f : Forwarder)
    → Inv limit pending f
    → Serves port f phase
    → Serves port (resume config port answers phase f).1 (resume config port answers phase f).0
unfolding resume
resume-Serves config port limit pending answers idle f v s = tt
resume-Serves config port limit pending answers (resolving retry) f v s =
    on_ready-HasNone retry answers.ready port f
resume-Serves config port limit pending answers (checking pod retry) f v s =
    if-HasNone (is_target f.pool.target pod) _ _ (λ port f. tt) (λ port f. tt) port f
resume-Serves config port limit pending answers (switching pod retry) f v s = tt
resume-Serves config port limit pending answers (reusing pod retry) f v s =
    or_reuse-Serves limit pending port pod (retiring pod retry) f v tt
resume-Serves config port limit pending answers (retiring pod retry) f v s = tt
resume-Serves config port limit pending answers (finding pod retry) f v s =
    or_reuse-Serves limit pending port pod (gate pod retry) f v tt
resume-Serves config port limit pending answers (gate pod retry) f v s =
    if-HasNone (has_in_flight_open f.pool) _ _ (λ port f. tt) (λ port f. tt) port f
resume-Serves config port limit pending answers (waiting pod retry) f v s =
    or_reuse-Serves limit pending port pod (reserving pod retry) f v tt
resume-Serves config port limit pending answers (reserving pod retry) f v s =
    on_reserved-HasNone (reserve_new_slot config f.pool).0 pod retry port
      (record f { pool = (reserve_new_slot config f.pool).1 })
resume-Serves config port limit pending answers (acquiring pod retry) f v s =
    on_permit-HasNone answers.permit pod retry f port (on_permit answers.permit pod retry f).1
resume-Serves config port limit pending answers (opening pod retry) f v s =
    on_opening-Serves answers.session port pod retry answers.now f
resume-Serves config port limit pending answers (prefetching at pod) f v s =
    IsFor-Extends port f _ at (resume-Extends config port answers (prefetching at pod) f) s
resume-Serves config port limit pending answers (filling at pod) f v s =
    IsFor-Extends port f _ at (resume-Extends config port answers (filling at pod) f) s
resume-Serves config port limit pending answers (returned at pod) f v s = s
resume-Serves config port limit pending answers (failed e) f v s = tt
