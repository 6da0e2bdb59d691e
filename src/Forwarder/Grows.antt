-- ===== src/Forwarder/Grows.antt =====
-- crates/kube-portforward/src/forwarder: what each section leaves of the sessions that exist. The pod
-- and the port of a session never change, and a cancelled one stays so.
use Prim.Native.String.{String}
use kube_portforward.Prelude.{
  ℕ, ◌-◌, length, ◌<◌, ◌≤◌, ◌≡◌, refl, sym, subst, ◌∙◌, List, [], ◌∷◌, Option, none, some, Bool,
  false, arith,
}
use kube_portforward.Prelude.Maps.{update}
use kube_portforward.Pods.{ReadyPod}
use kube_portforward.Forwarder.{
  Session, PooledSession, ForwarderConfig, Prefetch, Forwarder, cancelled_session, cancel,
  cancel_all, drain_to, install_if_current, retain, extract, is_dead, retire_dead_sessions,
  open_session, drain_and_cancel_all,
}
use kube_portforward.Forwarder.Prefetches.{
  is_prunable, prune_once, begin_prefetch, spawn_replenish, prefetch_at, maybe_prefetch,
  place_prefetched, end_prefetch, finish_prefetch,
}
use kube_portforward.Forwarder.Calls.{
  Phase, switching, retiring, acquiring, opening, prefetching, filling, Answers, Permit, granted,
  semaphore_closed, timed_out, Opening, connected, refused, switch_target, on_permit, on_install,
  on_opening, resume, handle_pod_died,
}
use kube_portforward.Forwarder.System.{Evolves, drop_future, shutdown}

Evolves-refl : (s : Session) → Evolves s s
Evolves-refl s = ground arith

Evolves-trans : (a b c : Session) → Evolves a b → Evolves b c → Evolves a c
Evolves-trans a b c p q = record {
  same_pod = q.same_pod ∙ p.same_pod;
  same_port = q.same_port ∙ p.same_port;
  stays = λ e. q.stays (p.stays e);
}

cancel-Evolves :
    (at : ℕ) (sessions : ℕ → Session) (a : ℕ) → Evolves (sessions a) (cancel at sessions a)
unfolding cancel cancelled_session
cancel-Evolves at sessions a = ground arith

pub cancel_all-Evolves :
    (entries : List PooledSession) (sessions : ℕ → Session) (a : ℕ)
    → Evolves (sessions a) (cancel_all entries sessions a)
unfolding cancel_all
cancel_all-Evolves [] sessions a = Evolves-refl (sessions a)
cancel_all-Evolves (e ∷ entries) sessions a =
    Evolves-trans (sessions a) (cancel e.session sessions a) _ (cancel-Evolves e.session sessions a)
      (cancel_all-Evolves entries (cancel e.session sessions) a)

-- Every session that exists is there afterwards.
pub record Extends (f g : Forwarder) : Type 0 where
  pub grows : f.fresh ≤ g.fresh
  pub keeps : (a : ℕ) → a < f.fresh → Evolves (f.sessions a) (g.sessions a)

Extends-trans : (f g h : Forwarder) → Extends f g → Extends g h → Extends f h
Extends-trans f g h p q = record {
  grows = omega (arith, p.grows, q.grows);
  keeps = λ a lt.
      Evolves-trans (f.sessions a) (g.sessions a) (h.sessions a) (p.keeps a lt)
        (q.keeps a (omega (arith, p.grows)));
}

-- Sections that leave the store, or cancel some of it.
pub Extends-same : (f g : Forwarder) → g.fresh ≡ f.fresh → g.sessions ≡ f.sessions → Extends f g
Extends-same f g same store = record {
  grows = omega arith;
  keeps =
      λ a lt. subst (λ s. Evolves (f.sessions a) (s a)) (sym store) (Evolves-refl (f.sessions a));
}

drain_to-Extends : (target : Option ReadyPod) (f : Forwarder) → Extends f (drain_to target f)
unfolding drain_to
drain_to-Extends target f = record {
  grows = omega arith;
  keeps = λ a lt. cancel_all-Evolves f.pool.entries f.sessions a;
}

pub retain-Extends :
    (parts : List PooledSession × List PooledSession) (f : Forwarder) → Extends f (retain parts f)
unfolding retain
retain-Extends (taken, kept) f = record {
  grows = omega arith;
  keeps = λ a lt. cancel_all-Evolves taken f.sessions a;
}

retire_dead_sessions-Extends : (f : Forwarder) → Extends f (retire_dead_sessions f)
unfolding retire_dead_sessions
retire_dead_sessions-Extends f =
    retain-Extends (extract (is_dead f.sessions) (length f.pool.entries) f.pool.entries) f

pub prune_once-Extends : (now idle_age : ℕ) (f : Forwarder) → Extends f (prune_once now idle_age f)
unfolding prune_once
prune_once-Extends now idle_age f =
    retain-Extends
      (extract (is_prunable now idle_age f.sessions) (length f.pool.entries - 1) f.pool.entries) f

pub open_session-Extends :
    (pod : ReadyPod) (port capacity : ℕ) (f : Forwarder)
    → Extends f (open_session pod port capacity f)
unfolding open_session
open_session-Extends pod port capacity f = record {
  grows = omega arith;
  keeps = λ a lt. ground (arith, Evolves-refl (f.sessions a));
}

pub cancel-Extends :
    (at : ℕ) (f : Forwarder) → Extends f (record f { sessions = cancel at f.sessions })
cancel-Extends at f = record { grows = omega arith; keeps = λ a lt. cancel-Evolves at f.sessions a }

maybe_prefetch-Extends :
    (config : ForwarderConfig) (at port : ℕ) (pod : ReadyPod) (f : Forwarder)
    → Extends f (maybe_prefetch config at port pod f)
unfolding maybe_prefetch spawn_replenish prefetch_at begin_prefetch
maybe_prefetch-Extends config at port pod f = Extends-same f _ (ground arith) (ground arith)

place_prefetched-Extends :
    (config : ForwarderConfig) (pod : ReadyPod) (at now : ℕ) (f : Forwarder)
    → Extends f (place_prefetched config pod at now f)
unfolding place_prefetched
place_prefetched-Extends config pod at now f =
    ground (arith, Extends-same f f refl refl, cancel-Extends at f)

end_prefetch-Extends :
    (config : ForwarderConfig) (tasks : List Prefetch) (answer : Option ℕ) (now : ℕ) (f : Forwarder)
    → Extends f (end_prefetch config tasks answer now f)
unfolding end_prefetch
end_prefetch-Extends config [] answer now f = Extends-same f _ refl refl
end_prefetch-Extends config (task ∷ tasks) none now f = Extends-same f _ refl refl
end_prefetch-Extends config (task ∷ tasks) (some capacity) now f =
    let begun : Forwarder = record f {
      pool = record (f.pool) { prefetch_in_flight = false };
      prefetches = tasks;
    } in
    let connected_to = open_session task.target task.target_port capacity begun in
    Extends-trans f connected_to _
      (Extends-trans f begun connected_to (Extends-same f begun refl refl)
        (open_session-Extends task.target task.target_port capacity begun))
      (place_prefetched-Extends config task.target f.fresh now connected_to)

pub finish_prefetch-Extends :
    (config : ForwarderConfig) (answer : Option ℕ) (now : ℕ) (f : Forwarder)
    → Extends f (finish_prefetch config answer now f)
unfolding finish_prefetch
finish_prefetch-Extends config answer now f = end_prefetch-Extends config f.prefetches answer now f

switch_target-Extends : (pod : ReadyPod) (f : Forwarder) → Extends f (switch_target pod f)
unfolding switch_target
switch_target-Extends pod f =
    ground (arith, Extends-same f f refl refl, drain_to-Extends (some pod) f)

on_install-Extends :
    (at : ℕ) (pod : ReadyPod) (retry : Bool) (now : ℕ) (f : Forwarder)
    → Extends f (on_install at pod retry now f).1
unfolding install_if_current
on_install-Extends at pod retry now f =
    ground (arith, Extends-same f (on_install at pod retry now f).1, cancel-Extends at f)

on_opening-Extends :
    (answer : Opening) (port : ℕ) (pod : ReadyPod) (retry : Bool) (now : ℕ) (f : Forwarder)
    → Extends f (on_opening answer port pod retry now f).1
on_opening-Extends (refused e) port pod retry now f = Extends-same f _ refl refl
on_opening-Extends (connected capacity) port pod retry now f =
    Extends-trans f (open_session pod port capacity f) _ (open_session-Extends pod port capacity f)
      (on_install-Extends f.fresh pod retry now (open_session pod port capacity f))

on_permit-Extends :
    (permit : Permit) (pod : ReadyPod) (retry : Bool) (f : Forwarder)
    → Extends f (on_permit permit pod retry f).1
on_permit-Extends granted pod retry f = Extends-same f _ refl refl
on_permit-Extends semaphore_closed pod retry f = Extends-same f _ refl refl
on_permit-Extends timed_out pod retry f = Extends-same f _ refl refl

pub resume-Extends :
    (config : ForwarderConfig) (port : ℕ) (answers : Answers) (phase : Phase) (f : Forwarder)
    → Extends f (resume config port answers phase f).1
unfolding resume
resume-Extends config port answers (switching pod retry) f = switch_target-Extends pod f
resume-Extends config port answers (retiring pod retry) f = retire_dead_sessions-Extends f
resume-Extends config port answers (acquiring pod retry) f =
    on_permit-Extends answers.permit pod retry f
resume-Extends config port answers (opening pod retry) f =
    on_opening-Extends answers.session port pod retry answers.now f
resume-Extends config port answers (prefetching at pod) f =
    maybe_prefetch-Extends config at port pod f
resume-Extends config port answers (filling at pod) f =
    Extends-trans f (maybe_prefetch config at port pod f) _
      (maybe_prefetch-Extends config at port pod f) (Extends-same _ _ refl refl)
resume-Extends config port answers phase f = Extends-same f _ refl refl

pub handle_pod_died-Extends :
    (contains_identity : String → Option String → Bool) (dead : String) (f : Forwarder)
    → Extends f (handle_pod_died contains_identity dead f).1
unfolding handle_pod_died
handle_pod_died-Extends contains_identity dead f =
    ground (arith, Extends-same f f refl refl, drain_to-Extends none f)

pub drop_future-Extends : (phase : Phase) (f : Forwarder) → Extends f (drop_future phase f)
unfolding drop_future
drop_future-Extends phase f = Extends-same f _ (ground arith) (ground arith)

pub shutdown-Extends : (f : Forwarder) → Extends f (shutdown f)
unfolding shutdown drain_and_cancel_all cancelled_session
shutdown-Extends f =
    Extends-trans f (drain_to none f) _ (drain_to-Extends none f)
      (record { grows = omega arith; keeps = λ a lt. ground arith })

pub evolved-Extends :
    (at : ℕ) (session : Session) (f : Forwarder)
    → Evolves (f.sessions at) session
    → Extends f (record f { sessions = update f.sessions at session })
evolved-Extends at session f e = record {
  grows = omega arith;
  keeps = λ a lt. ground (arith, Evolves-refl (f.sessions a));
}
