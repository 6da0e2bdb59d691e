-- ===== src/Forwarder/System.antt =====
-- crates/kube-portforward/src/forwarder: the calls of `ensure_session_for_pod` and the tasks of one
-- Forwarder, interleaved in any order. Calls have numbers below `n`; call `i` wants `ports i`.
use Prim.Native.String.{String}
use kube_portforward.Prelude.{
  List, ◌∷◌, ◌++◌, ℕ, zero, suc, ◌+◌, ◌<◌, ◌≤◌, ◌≡◌, [], Option, Bool, true, false, ◌==◌, refl,
  arith, if◌then◌else◌,
}
use kube_portforward.Prelude.Maps.{update}
use kube_portforward.Forwarder.{
  Session, ForwarderConfig, Forwarder, drain_and_cancel_all, cancelled_session, new_pool,
}
use kube_portforward.Forwarder.Prefetches.{prune_once, finish_prefetch}
use kube_portforward.Forwarder.Calls.{
  Phase, idle, resolving, acquiring, opening, filling, returned, failed, Answers, resume,
  handle_pod_died, release_slot,
}

pub record System : Type 0 where
  pub shared : Forwarder
  pub phases : ℕ → Phase

-- One while the call holds an `OpeningSlot`; and one while it has not installed the session.
unfoldable pub holds : Phase → ℕ
holds (acquiring pod retry) = 1
holds (opening pod retry) = 1
holds (filling at pod) = 1
holds other = 0

unfoldable pub opens : Phase → ℕ
opens (acquiring pod retry) = 1
opens (opening pod retry) = 1
opens other = 0

unfoldable pub is_over : Phase → Bool
is_over idle = true
is_over (returned at pod) = true
is_over (failed e) = true
is_over other = false

-- The future is dropped, and with it the slot.
unfoldable pub drop_future : Phase → Forwarder → Forwarder
unfolding holds
drop_future phase f = if holds phase == 0 then f else release_slot f

-- The sessions are children of `session_cancel`, and the tasks are aborted.
unfoldable pub shutdown : Forwarder → Forwarder
unfolding drain_and_cancel_all cancelled_session
shutdown f =
    let drained = drain_and_cancel_all f in
    record drained {
      sessions = λ at. cancelled_session (drained.sessions at);
      prefetches = [];
      replenishes = [];
    }

-- What a session does by itself: its counts change, and it may be cancelled for good.
pub record Evolves (before after : Session) : Type 0 where
  pub same_pod : after.pod ≡ before.pod
  pub same_port : after.port ≡ before.port
  pub stays : before.is_cancelled ≡ true → after.is_cancelled ≡ true

pub data Step (config : ForwarderConfig) (n : ℕ) (ports : ℕ → ℕ) (s : System)
    : System → Type 0 where
  called :
      (i : ℕ)
      → i < n
      → is_over (s.phases i) ≡ true
      → Step config n ports s (record s { phases = update s.phases i (resolving true) })
  resumed :
      (i : ℕ) (answers : Answers)
      → i < n
      → Step config n ports s (record {
        shared = (resume config (ports i) answers (s.phases i) s.shared).1;
        phases = update s.phases i (resume config (ports i) answers (s.phases i) s.shared).0;
      })
  dropped :
      (i : ℕ)
      → i < n
      → Step config n ports s
          (record { shared = drop_future (s.phases i) s.shared; phases = update s.phases i idle })
  prefetched :
      (answer : Option ℕ) (now : ℕ)
      → Step config n ports s (record s { shared = finish_prefetch config answer now s.shared })
  pruned :
      (now : ℕ)
      → Step config n ports s (record s { shared = prune_once now config.prune_idle_age s.shared })
  pod_died :
      (contains_identity : String → Option String → Bool) (dead : String)
      → Step config n ports s
          (record s { shared = (handle_pod_died contains_identity dead s.shared).1 })
  shut : Step config n ports s (record s { shared = shutdown s.shared })
  evolved :
      (at : ℕ) (session : Session)
      → Evolves (s.shared.sessions at) session
      → Step config n ports s (record s {
        shared = record (s.shared) { sessions = update s.shared.sessions at session };
      })
  -- A task that replenishes a session's spare streams ends, in whatever order the tasks do.
  replenished :
      (earlier others : List ℕ) (at : ℕ) (session : Session)
      → s.shared.replenishes ≡ earlier ++ at ∷ others
      → Evolves (s.shared.sessions at) session
      → Step config n ports s (record s {
        shared = record (s.shared) {
          sessions = update s.shared.sessions at session;
          replenishes = earlier ++ others;
        };
      })

abbrev pub start : (ℕ → Session) → System
start sessions = record {
  shared = record {
    pool = new_pool;
    sessions = sessions;
    fresh = 0;
    prefetches = [];
    replenishes = [];
  };
  phases = λ i. idle;
}

pub data Reach (config : ForwarderConfig) (n : ℕ) (ports : ℕ → ℕ) : System → Type 0 where
  started : (sessions : ℕ → Session) → Reach config n ports (start sessions)
  later : {s t : System} → Reach config n ports s → Step config n ports s t → Reach config n ports t

-- A number summed over the first `n` calls.
module _ (weight : Phase → ℕ) where
  unfoldable pub sum_of : ℕ → (ℕ → Phase) → ℕ
  sum_of zero phases = 0
  sum_of (suc n) phases = weight (phases n) + sum_of n phases

  sum_of-outside :
      (n : ℕ) (phases : ℕ → Phase) (i : ℕ) (phase : Phase)
      → n ≤ i
      → sum_of n (update phases i phase) ≡ sum_of n phases
  unfolding sum_of
  sum_of-outside zero phases i phase h = refl
  sum_of-outside (suc n) phases i phase h = ground (arith, sum_of-outside n phases i phase)

  pub sum_of-update :
      (n : ℕ) (phases : ℕ → Phase) (i : ℕ) (phase : Phase)
      → i < n
      → sum_of n (update phases i phase) + weight (phases i) ≡ sum_of n phases + weight phase
  unfolding sum_of
  sum_of-update zero phases i phase h = absurd (omega arith)
  sum_of-update (suc n) phases i phase h =
      ground (arith, sum_of-update n phases i phase, sum_of-outside n phases i phase)

  pub sum_of-idle : (n : ℕ) → weight idle ≡ 0 → sum_of n (λ i. idle) ≡ 0
  unfolding sum_of
  sum_of-idle zero e = refl
  sum_of-idle (suc n) e = omega (arith, sum_of-idle n e)

sum_of_mono :
    (light heavy : Phase → ℕ) (n : ℕ) (phases : ℕ → Phase)
    → ((phase : Phase) → light phase ≤ heavy phase)
    → sum_of light n phases ≤ sum_of heavy n phases
unfolding sum_of
sum_of_mono light heavy zero phases h = omega arith
sum_of_mono light heavy (suc n) phases h =
    omega (arith, h (phases n), sum_of_mono light heavy n phases h)

opens-le-holds : (phase : Phase) → opens phase ≤ holds phase
unfolding opens holds
opens-le-holds (acquiring pod retry) = omega arith
opens-le-holds phase = omega arith

-- An opening is held by a slot.
pub sum_of-opens-le : (n : ℕ) (phases : ℕ → Phase) → sum_of opens n phases ≤ sum_of holds n phases
sum_of-opens-le n phases = sum_of_mono opens holds n phases opens-le-holds
