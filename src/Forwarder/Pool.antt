-- ===== src/Forwarder/Pool.antt =====
-- crates/kube-portforward/src/forwarder: the invariant of the pool under each section.
use Prim.Native.String.{String}
use kube_portforward.Prelude.{
  ℕ, ◌+◌, ◌-◌, ◌<◌, ◌≤◌, ◌≡◌, refl, sym, ap, subst, ◌∙◌, List, [], ◌∷◌, ◌++◌, Option, none, some,
  Bool, true, false, ◌&&◌, ltb, length, length-append, arith, if◌then◌else◌,
}
use kube_portforward.Prelude.Maps.{update}
use kube_portforward.Pods.{ReadyPod}
use kube_portforward.Pods.Chosen.{same_pod_iff}
use kube_portforward.Forwarder.{
  Session, PooledSession, ForwarderConfig, Prefetch, Forwarder, addresses, refresh_snapshot, cancel,
  cancel_all, drain_to, is_target, push_entry, extract, is_empty, retain, is_dead,
  retire_dead_sessions, open_session, opened, drain_and_cancel_all,
}
use kube_portforward.Forwarder.Prefetches.{
  is_prunable, prune_once, begin_prefetch, spawn_replenish, prefetch_at, maybe_prefetch,
  place_prefetched, end_prefetch, finish_prefetch,
}
use kube_portforward.Forwarder.Calls.{handle_pod_died}
use kube_portforward.Forwarder.System.{Evolves, shutdown}
use kube_portforward.Forwarder.Grows.{
  evolved-Extends, Extends, retain-Extends, cancel-Extends, open_session-Extends,
}

-- Every entry is a session that exists and was opened for this target.
abbrev pub Owned : Option ReadyPod → (ℕ → Session) → ℕ → List PooledSession → Type 0
Owned target sessions fresh [] = Unit
Owned target sessions fresh (e ∷ entries) =
    (e.session < fresh)
    × (target ≡ some (sessions e.session).pod)
    × Owned target sessions fresh entries

-- `pending` sessions are being opened under a slot.
pub record Inv (limit pending : ℕ) (f : Forwarder) : Type 0 where
  pub fresh_snapshot : f.pool.snapshot ≡ addresses f.pool.entries
  pub owned : Owned f.pool.target f.sessions f.fresh f.pool.entries
  pub single : length f.prefetches ≤ (if f.pool.prefetch_in_flight then 1 else 0)
  pub few : f.pool.opening_count ≤ limit
  pub bounded : length f.pool.entries + pending ≤ limit + limit

Owned-Extends :
    (f g : Forwarder) (target : Option ReadyPod) (entries : List PooledSession)
    → Extends f g
    → Owned target f.sessions f.fresh entries
    → Owned target g.sessions g.fresh entries
Owned-Extends f g target [] x o = tt
Owned-Extends f g target (e ∷ entries) x (lt, is, o) = (
  omega (arith, x.grows),
  is ∙ ap some (sym (x.keeps e.session lt).same_pod),
  Owned-Extends f g target entries x o,
)

Owned-eq :
    {from to : Option ReadyPod} {xs ys : List PooledSession} (sessions : ℕ → Session) (fresh : ℕ)
    → from ≡ to
    → xs ≡ ys
    → Owned from sessions fresh xs
    → Owned to sessions fresh ys
Owned-eq {from} {to} {xs} {ys} sessions fresh p q o =
    subst (λ (t : Option ReadyPod). Owned t sessions fresh ys) p
      (subst (λ (es : List PooledSession). Owned from sessions fresh es) q o)

Owned-append :
    (target : Option ReadyPod) (sessions : ℕ → Session) (fresh : ℕ) (xs ys : List PooledSession)
    → Owned target sessions fresh xs
    → Owned target sessions fresh ys
    → Owned target sessions fresh (xs ++ ys)
Owned-append target sessions fresh [] ys o p = p
Owned-append target sessions fresh (e ∷ xs) ys (lt, is, o) p =
    (lt, is, Owned-append target sessions fresh xs ys o p)

module _ (test : PooledSession → Bool) where
  extract-Owned :
      (target : Option ReadyPod) (sessions : ℕ → Session) (fresh limit : ℕ)
      (xs : List PooledSession)
      → Owned target sessions fresh xs
      → Owned target sessions fresh (extract test limit xs).1
  unfolding extract
  extract-Owned target sessions fresh limit [] o = tt
  extract-Owned target sessions fresh limit (e ∷ xs) (lt, is, o) = ground (
    arith,
    extract-Owned target sessions fresh (if test e && ltb 0 limit then limit - 1 else limit) xs o,
  )

  pub length-extract :
      (limit : ℕ) (xs : List PooledSession)
      → (length (extract test limit xs).0 ≤ limit)
        × (length (extract test limit xs).0 + length (extract test limit xs).1 ≡ length xs)
  unfolding extract
  length-extract limit [] = ground arith
  length-extract limit (e ∷ xs) =
      ground (arith, length-extract (if test e && ltb 0 limit then limit - 1 else limit) xs)

  extract-nothing :
      (limit : ℕ) (xs : List PooledSession)
      → is_empty (extract test limit xs).0 ≡ true
      → (extract test limit xs).1 ≡ xs
  unfolding extract is_empty
  extract-nothing limit [] e = refl
  extract-nothing limit (x ∷ xs) e =
      ground (arith, extract-nothing (if test x && ltb 0 limit then limit - 1 else limit) xs)

  retain-Inv :
      (most limit pending : ℕ) (f : Forwarder)
      → Inv limit pending f
      → Inv limit pending (retain (extract test most f.pool.entries) f)
  unfolding retain refresh_snapshot
  retain-Inv most limit pending f v = record {
    fresh_snapshot = ground (arith, v.fresh_snapshot, extract-nothing most f.pool.entries);
    owned =
        Owned-eq {from = f.pool.target} {xs = (extract test most f.pool.entries).1}
          (cancel_all (extract test most f.pool.entries).0 f.sessions) f.fresh (ground arith)
          (ground arith)
          (Owned-Extends f (retain (extract test most f.pool.entries) f) _ _
            (retain-Extends (extract test most f.pool.entries) f)
            (extract-Owned f.pool.target f.sessions f.fresh most f.pool.entries v.owned));
    single = ground arith;
    few = ground arith;
    bounded = ground (arith, length-extract most f.pool.entries);
  }

pub retire_dead_sessions-Inv :
    (limit pending : ℕ) (f : Forwarder)
    → Inv limit pending f
    → Inv limit pending (retire_dead_sessions f)
unfolding retire_dead_sessions
retire_dead_sessions-Inv limit pending f v =
    retain-Inv (is_dead f.sessions) (length f.pool.entries) limit pending f v

pub prune_once-Inv :
    (now idle_age limit pending : ℕ) (f : Forwarder)
    → Inv limit pending f
    → Inv limit pending (prune_once now idle_age f)
unfolding prune_once
prune_once-Inv now idle_age limit pending f v =
    retain-Inv (is_prunable now idle_age f.sessions) (length f.pool.entries - 1) limit pending f v

pub drain_to-Inv :
    (target : Option ReadyPod) (limit pending : ℕ) (f : Forwarder)
    → Inv limit pending f
    → Inv limit pending (drain_to target f)
unfolding drain_to refresh_snapshot
drain_to-Inv target limit pending f v = ground arith

pub is_target-eq :
    (target : Option ReadyPod) (pod : ReadyPod) → is_target target pod ≡ true → target ≡ some pod
unfolding is_target
is_target-eq none pod e = cc
is_target-eq (some other) pod e = ap some ((same_pod_iff other pod).0 e)

-- A session that exists and was opened for the target is installed, where there is room.
pub push_entry-Inv :
    (limit pending before at now : ℕ) (pod : ReadyPod) (f : Forwarder)
    → Inv limit before f
    → is_target f.pool.target pod ≡ true
    → at < f.fresh
    → (f.sessions at).pod ≡ pod
    → length f.pool.entries + 1 + pending ≤ limit + limit
    → Inv limit pending (record f { pool = push_entry at now f.pool })
unfolding push_entry refresh_snapshot
push_entry-Inv limit pending before at now pod f v current exists for room = record {
  fresh_snapshot = refl;
  owned =
      Owned-append f.pool.target f.sessions f.fresh f.pool.entries _ v.owned
        (exists, is_target-eq f.pool.target pod current ∙ ap some (sym for), tt);
  single = v.single;
  few = v.few;
  bounded =
      omega
        (arith, length-append f.pool.entries ((record { session = at; created_at = now }) ∷ []));
}

begin_prefetch-Inv :
    (config : ForwarderConfig) (port limit pending : ℕ) (pod : ReadyPod) (f : Forwarder)
    → Inv limit pending f
    → Inv limit pending (begin_prefetch config port pod f)
unfolding begin_prefetch
begin_prefetch-Inv config port limit pending pod f v =
    ground (arith, length-append f.prefetches ((record { target = pod; target_port = port }) ∷ []))

pub maybe_prefetch-Inv :
    (config : ForwarderConfig) (at port limit pending : ℕ) (pod : ReadyPod) (f : Forwarder)
    → Inv limit pending f
    → Inv limit pending (maybe_prefetch config at port pod f)
unfolding maybe_prefetch spawn_replenish prefetch_at
maybe_prefetch-Inv config at port limit pending pod f v =
    ground (arith, begin_prefetch-Inv config port limit pending pod f v)

-- The session that is cancelled is not looked at.
pub cancel-Inv :
    (at limit pending : ℕ) (f : Forwarder)
    → Inv limit pending f
    → Inv limit pending (record f { sessions = cancel at f.sessions })
cancel-Inv at limit pending f v = record {
  fresh_snapshot = v.fresh_snapshot;
  owned = Owned-Extends f _ f.pool.target f.pool.entries (cancel-Extends at f) v.owned;
  single = v.single;
  few = v.few;
  bounded = v.bounded;
}

pub open_session-Inv :
    (pod : ReadyPod) (port capacity limit pending : ℕ) (f : Forwarder)
    → Inv limit pending f
    → Inv limit pending (open_session pod port capacity f)
unfolding open_session
open_session-Inv pod port capacity limit pending f v = record {
  fresh_snapshot = v.fresh_snapshot;
  owned =
      Owned-Extends f (open_session pod port capacity f) f.pool.target f.pool.entries
        (open_session-Extends pod port capacity f) v.owned;
  single = v.single;
  few = v.few;
  bounded = v.bounded;
}

pub open_session_there :
    (pod : ReadyPod) (port capacity : ℕ) (f : Forwarder)
    → (f.fresh < (open_session pod port capacity f).fresh)
      × (((open_session pod port capacity f).sessions f.fresh).pod ≡ pod)
      × (((open_session pod port capacity f).sessions f.fresh).port ≡ port)
unfolding open_session opened
open_session_there pod port capacity f = ground arith

place_prefetched-Inv :
    (config : ForwarderConfig) (pending at now : ℕ) (pod : ReadyPod) (f : Forwarder)
    → Inv config.max_sessions pending f
    → pending ≤ config.max_sessions
    → at < f.fresh
    → (f.sessions at).pod ≡ pod
    → Inv config.max_sessions pending (place_prefetched config pod at now f)
unfolding place_prefetched
place_prefetched-Inv config pending at now pod f v few exists for = ground (
  arith,
  push_entry-Inv config.max_sessions pending pending at now pod f v,
  cancel-Inv at config.max_sessions pending f v,
)

-- A prefetch task that has ended.
end_task-Inv :
    (limit pending : ℕ) (task : Prefetch) (tasks : List Prefetch) (f : Forwarder)
    → f.prefetches ≡ task ∷ tasks
    → Inv limit pending f
    → Inv limit pending
        (record f { pool = record (f.pool) { prefetch_in_flight = false }; prefetches = tasks })
end_task-Inv limit pending task tasks f e v = ground arith

end_prefetch-Inv :
    (config : ForwarderConfig) (pending : ℕ) (tasks : List Prefetch) (answer : Option ℕ) (now : ℕ)
    (f : Forwarder)
    → f.prefetches ≡ tasks
    → pending ≤ config.max_sessions
    → Inv config.max_sessions pending f
    → Inv config.max_sessions pending (end_prefetch config tasks answer now f)
unfolding end_prefetch
end_prefetch-Inv config pending [] answer now f e few v = v
end_prefetch-Inv config pending (task ∷ tasks) none now f e few v =
    end_task-Inv config.max_sessions pending task tasks f e v
end_prefetch-Inv config pending (task ∷ tasks) (some capacity) now f e few v =
    let ended : Forwarder = record f {
      pool = record (f.pool) { prefetch_in_flight = false };
      prefetches = tasks;
    } in
    let there = open_session_there task.target task.target_port capacity ended in
    place_prefetched-Inv config pending f.fresh now task.target _
      (open_session-Inv task.target task.target_port capacity config.max_sessions pending ended
        (end_task-Inv config.max_sessions pending task tasks f e v))
      few there.0 there.1

pub finish_prefetch-Inv :
    (config : ForwarderConfig) (pending : ℕ) (answer : Option ℕ) (now : ℕ) (f : Forwarder)
    → pending ≤ config.max_sessions
    → Inv config.max_sessions pending f
    → Inv config.max_sessions pending (finish_prefetch config answer now f)
unfolding finish_prefetch
finish_prefetch-Inv config pending answer now f few v =
    end_prefetch-Inv config pending f.prefetches answer now f refl few v

pub handle_pod_died-Inv :
    (contains_identity : String → Option String → Bool) (dead : String) (limit pending : ℕ)
    (f : Forwarder)
    → Inv limit pending f
    → Inv limit pending (handle_pod_died contains_identity dead f).1
unfolding handle_pod_died
handle_pod_died-Inv contains_identity dead limit pending f v =
    ground (arith, drain_to-Inv none limit pending f v)

pub shutdown-Inv :
    (limit pending : ℕ) (f : Forwarder) → Inv limit pending f → Inv limit pending (shutdown f)
unfolding shutdown drain_and_cancel_all drain_to refresh_snapshot
shutdown-Inv limit pending f v = ground arith

pub evolved-Inv :
    (at : ℕ) (session : Session) (limit pending : ℕ) (f : Forwarder)
    → Evolves (f.sessions at) session
    → Inv limit pending f
    → Inv limit pending (record f { sessions = update f.sessions at session })
evolved-Inv at session limit pending f e v = record {
  fresh_snapshot = v.fresh_snapshot;
  owned = Owned-Extends f _ f.pool.target f.pool.entries (evolved-Extends at session f e) v.owned;
  single = v.single;
  few = v.few;
  bounded = v.bounded;
}

pub replenished-Inv :
    (others : List ℕ) (limit pending : ℕ) (f : Forwarder)
    → Inv limit pending f
    → Inv limit pending (record f { replenishes = others })
replenished-Inv others limit pending f v = record {
  fresh_snapshot = v.fresh_snapshot;
  owned = v.owned;
  single = v.single;
  few = v.few;
  bounded = v.bounded;
}

-- The tasks take no slot and give none back.
pub finish_prefetch_count :
    (config : ForwarderConfig) (answer : Option ℕ) (now : ℕ) (f : Forwarder)
    → (finish_prefetch config answer now f).pool.opening_count ≡ f.pool.opening_count
unfolding finish_prefetch end_prefetch place_prefetched open_session push_entry refresh_snapshot
finish_prefetch_count config answer now f = ground arith

pub prune_once_count :
    (now idle_age : ℕ) (f : Forwarder)
    → (prune_once now idle_age f).pool.opening_count ≡ f.pool.opening_count
unfolding prune_once retain refresh_snapshot
prune_once_count now idle_age f = ground arith

pub handle_pod_died_count :
    (contains_identity : String → Option String → Bool) (dead : String) (f : Forwarder)
    → (handle_pod_died contains_identity dead f).1.pool.opening_count ≡ f.pool.opening_count
unfolding handle_pod_died drain_to refresh_snapshot
handle_pod_died_count contains_identity dead f = ground arith

pub shutdown_count : (f : Forwarder) → (shutdown f).pool.opening_count ≡ f.pool.opening_count
unfolding shutdown drain_and_cancel_all drain_to refresh_snapshot
shutdown_count f = refl
