-- ===== src/Forwarder/Moves.antt =====
-- crates/kube-portforward/src/forwarder/lifecycle.rs: the pool and the slots when a call of
-- `ensure_session_for_pod` goes from one phase to the next.
use kube_portforward.Prelude.{
  ℕ, ◌+◌, ◌-◌, ◌<◌, ◌≤◌, ◌≡◌, refl, subst, ◌∙◌, Option, none, some, Bool, true, false, arith,
  Bool-cases, inl, inr,
}
use kube_portforward.Pods.{ReadyPod}
use kube_portforward.Forwarder.{
  ForwarderConfig, Forwarder, is_target, find_reusable_session, drain_to, take_slot, drop_slot,
  reserve_new_slot, open_session, cancel, install_if_current, push_entry, retire_dead_sessions,
  retain,
}
use kube_portforward.Forwarder.Prefetches.{
  maybe_prefetch, spawn_replenish, prefetch_at, begin_prefetch,
}
use kube_portforward.Forwarder.Calls.{
  Phase, idle, resolving, checking, switching, reusing, retiring, finding, gate, waiting, reserving,
  acquiring, opening, prefetching, filling, returned, failed, Answers, Permit, granted,
  semaphore_closed, timed_out, Opening, connected, refused, switch_target, on_permit, on_install,
  on_opening, on_ready, or_reuse, on_stale, on_reserved, resume, release_slot,
}
use kube_portforward.Forwarder.System.{holds, opens, is_over, drop_future}
use kube_portforward.Forwarder.Pool.{
  Inv, drain_to-Inv, retire_dead_sessions-Inv, maybe_prefetch-Inv, cancel-Inv, open_session-Inv,
  open_session_there, push_entry-Inv,
}

-- The invariant does not name the slots but through their number.
slots-Inv :
    (limit pending pending' count : ℕ) (f : Forwarder)
    → pending' ≤ pending
    → count ≤ limit
    → Inv limit pending f
    → Inv limit pending' (record f { pool = record (f.pool) { opening_count = count } })
slots-Inv limit pending pending' count f fewer small v = ground arith

-- The pool after a call has gone from one phase to the next, where the other calls hold `slots`
-- slots, of which `rest` are for openings.
pub record Moved (limit rest slots : ℕ) (phase : Phase) (f : Forwarder) : Type 0 where
  pub inv : Inv limit (rest + opens phase) f
  pub counted : f.pool.opening_count ≡ slots + holds phase

switch_target-Inv :
    (pod : ReadyPod) (limit pending : ℕ) (f : Forwarder)
    → Inv limit pending f
    → Inv limit pending (switch_target pod f)
unfolding switch_target
switch_target-Inv pod limit pending f v = ground (arith, drain_to-Inv (some pod) limit pending f v)

module _ (limit rest slots : ℕ) (fewer : rest ≤ slots) where
  or_reuse-Moved :
      (pod : ReadyPod) (found : Option ℕ) (otherwise : Phase) (f : Forwarder)
      → opens otherwise ≡ 0
      → holds otherwise ≡ 0
      → Inv limit rest f
      → f.pool.opening_count ≡ slots
      → Moved limit rest slots (or_reuse pod found otherwise) f
  unfolding opens holds
  or_reuse-Moved pod none otherwise f o h v c = ground arith
  or_reuse-Moved pod (some at) otherwise f o h v c = ground arith

  on_ready-Moved :
      (retry : Bool) (ready : Option ReadyPod) (f : Forwarder)
      → Inv limit rest f
      → f.pool.opening_count ≡ slots
      → Moved limit rest slots (on_ready retry ready) f
  unfolding opens holds
  on_ready-Moved retry none f v c = ground arith
  on_ready-Moved retry (some pod) f v c = ground arith

  -- The slot is given back, and the opening that it was for is over.
  release-Moved :
      (phase : Phase) (f : Forwarder)
      → opens phase ≡ 0
      → holds phase ≡ 0
      → Inv limit (rest + 1) f
      → f.pool.opening_count ≡ slots + 1
      → Moved limit rest slots phase (release_slot f)
  unfolding drop_slot
  release-Moved phase f o h v c = record {
    inv =
        slots-Inv limit (rest + 1) (rest + opens phase) (f.pool.opening_count - 1) f (omega arith)
          (omega (arith, v.few)) v;
    counted = omega arith;
  }

  on_permit-Moved :
      (permit : Permit) (pod : ReadyPod) (retry : Bool) (f : Forwarder)
      → Inv limit (rest + 1) f
      → f.pool.opening_count ≡ slots + 1
      → Moved limit rest slots (on_permit permit pod retry f).0 (on_permit permit pod retry f).1
  unfolding opens holds
  on_permit-Moved granted pod retry f v c = record { inv = v; counted = c }
  on_permit-Moved semaphore_closed pod retry f v c = release-Moved _ f refl refl v c
  on_permit-Moved timed_out pod retry f v c = release-Moved _ f refl refl v c

  on_stale-Moved :
      (retry : Bool) (f : Forwarder)
      → Inv limit (rest + 1) f
      → f.pool.opening_count ≡ slots + 1
      → Moved limit rest slots (on_stale retry) (release_slot f)
  unfolding opens holds
  on_stale-Moved true f v c = release-Moved _ f refl refl v c
  on_stale-Moved false f v c = release-Moved _ f refl refl v c

  installed-Moved :
      (at now : ℕ) (pod : ReadyPod) (f : Forwarder)
      → Inv limit (rest + 1) f
      → f.pool.opening_count ≡ slots + 1
      → at < f.fresh
      → (f.sessions at).pod ≡ pod
      → is_target f.pool.target pod ≡ true
      → Moved limit rest slots (filling at pod) (record f { pool = push_entry at now f.pool })
  unfolding opens holds push_entry
  installed-Moved at now pod f v c exists for current = record {
    inv =
        push_entry-Inv limit (rest + 0) (rest + 1) at now pod f v current exists for
          (omega (arith, v.bounded));
    counted = c;
  }

  on_install-Moved :
      (at : ℕ) (pod : ReadyPod) (retry : Bool) (now : ℕ) (f : Forwarder)
      → Inv limit (rest + 1) f
      → f.pool.opening_count ≡ slots + 1
      → at < f.fresh
      → (f.sessions at).pod ≡ pod
      → Moved limit rest slots (on_install at pod retry now f).0 (on_install at pod retry now f).1
  unfolding install_if_current
  on_install-Moved at pod retry now f v c exists for =
      elim (Bool-cases (is_target f.pool.target pod)) [
        | inl e ↦ rw (e, install_if_current) (installed-Moved at now pod f v c exists for e)
        | inr e ↦
            rw (e, install_if_current)
              (on_stale-Moved retry (record f { sessions = cancel at f.sessions })
                (cancel-Inv at limit (rest + 1) f v) c)
      ]

  on_opening-Moved :
      (answer : Opening) (port : ℕ) (pod : ReadyPod) (retry : Bool) (now : ℕ) (f : Forwarder)
      → Inv limit (rest + 1) f
      → f.pool.opening_count ≡ slots + 1
      → Moved limit rest slots
          (on_opening answer port pod retry now f).0
          (on_opening answer port pod retry now f).1
  unfolding opens holds
  on_opening-Moved (refused e) port pod retry now f v c = release-Moved _ f refl refl v c
  on_opening-Moved (connected capacity) port pod retry now f v c =
      let there = open_session_there pod port capacity f in
      on_install-Moved f.fresh pod retry now (open_session pod port capacity f)
        (open_session-Inv pod port capacity limit (rest + 1) f v) (unfold open_session in c) there.0
        there.1

less_zero : (limit n : ℕ) (f : Forwarder) → Inv limit (n + 0) f → Inv limit n f
less_zero limit n f v = subst (λ (k : ℕ). Inv limit k f) (omega arith) v

-- A slot is reserved only while entries and openings together leave room.
reserve_new_slot-Moved :
    (config : ForwarderConfig) (rest slots : ℕ) (pod : ReadyPod) (retry : Bool) (f : Forwarder)
    → rest ≤ slots
    → Inv config.max_sessions rest f
    → f.pool.opening_count ≡ slots
    → Moved config.max_sessions rest slots
        (on_reserved (reserve_new_slot config f.pool).0 pod retry)
        (record f { pool = (reserve_new_slot config f.pool).1 })
unfolding reserve_new_slot take_slot opens holds
reserve_new_slot-Moved config rest slots pod retry f fewer v c = ground arith

switch_target_count :
    (pod : ReadyPod) (f : Forwarder)
    → (switch_target pod f).pool.opening_count ≡ f.pool.opening_count
unfolding switch_target drain_to
switch_target_count pod f = ground arith

retire_dead_sessions_count :
    (f : Forwarder) → (retire_dead_sessions f).pool.opening_count ≡ f.pool.opening_count
unfolding retire_dead_sessions retain
retire_dead_sessions_count f = ground arith

maybe_prefetch_count :
    (config : ForwarderConfig) (at port : ℕ) (pod : ReadyPod) (f : Forwarder)
    → (maybe_prefetch config at port pod f).pool.opening_count ≡ f.pool.opening_count
unfolding maybe_prefetch spawn_replenish prefetch_at begin_prefetch
maybe_prefetch_count config at port pod f = ground arith

-- A phase that holds no slot.
quiet-Moved :
    (limit rest slots : ℕ) (phase : Phase) (f : Forwarder)
    → opens phase ≡ 0
    → holds phase ≡ 0
    → Inv limit (rest + 0) f
    → f.pool.opening_count ≡ slots + 0
    → Moved limit rest slots phase f
quiet-Moved limit rest slots phase f o h v c = ground arith

module _ (config : ForwarderConfig) (port rest slots : ℕ) (fewer : rest ≤ slots) where
  pub resume-Moved :
      (answers : Answers) (phase : Phase) (f : Forwarder)
      → Moved config.max_sessions rest slots phase f
      → Moved config.max_sessions rest slots
          (resume config port answers phase f).0
          (resume config port answers phase f).1
  unfolding resume opens holds drop_slot
  resume-Moved answers idle f v = v
  resume-Moved answers (resolving retry) f v =
      on_ready-Moved _ rest slots fewer retry answers.ready f (less_zero _ rest f v.inv)
        (omega (arith, v.counted))
  resume-Moved answers (checking pod retry) f v = ground arith
  resume-Moved answers (switching pod retry) f v =
      quiet-Moved _ rest slots _ _ refl refl (switch_target-Inv pod _ _ f v.inv)
        (switch_target_count pod f ∙ v.counted)
  resume-Moved answers (reusing pod retry) f v =
      or_reuse-Moved _ rest slots fewer pod (find_reusable_session port f) (retiring pod retry) f
        refl refl (less_zero _ rest f v.inv) (omega (arith, v.counted))
  resume-Moved answers (retiring pod retry) f v =
      quiet-Moved _ rest slots _ _ refl refl (retire_dead_sessions-Inv _ _ f v.inv)
        (retire_dead_sessions_count f ∙ v.counted)
  resume-Moved answers (finding pod retry) f v =
      or_reuse-Moved _ rest slots fewer pod (find_reusable_session port f) (gate pod retry) f refl
        refl (less_zero _ rest f v.inv) (omega (arith, v.counted))
  resume-Moved answers (gate pod retry) f v = ground arith
  resume-Moved answers (waiting pod retry) f v =
      or_reuse-Moved _ rest slots fewer pod (find_reusable_session port f) (reserving pod retry) f
        refl refl (less_zero _ rest f v.inv) (omega (arith, v.counted))
  resume-Moved answers (reserving pod retry) f v =
      reserve_new_slot-Moved config rest slots pod retry f fewer (less_zero _ rest f v.inv)
        (omega (arith, v.counted))
  resume-Moved answers (acquiring pod retry) f v =
      on_permit-Moved _ rest slots fewer answers.permit pod retry f v.inv v.counted
  resume-Moved answers (opening pod retry) f v =
      on_opening-Moved _ rest slots fewer answers.session port pod retry answers.now f v.inv
        v.counted
  resume-Moved answers (prefetching at pod) f v =
      quiet-Moved _ rest slots _ _ refl refl (maybe_prefetch-Inv config at port _ _ pod f v.inv)
        (maybe_prefetch_count config at port pod f ∙ v.counted)
  resume-Moved answers (filling at pod) f v =
      let f' = maybe_prefetch config at port pod f in
      let v' = maybe_prefetch-Inv config at port config.max_sessions (rest + 0) pod f v.inv in
      let same = maybe_prefetch_count config at port pod f in
      record {
        inv =
            slots-Inv config.max_sessions (rest + 0) (rest + 0) (f'.pool.opening_count - 1) f'
              (omega arith) (omega (arith, v'.few)) v';
        counted = omega (arith, same, v.counted);
      }
  resume-Moved answers (returned at pod) f v = v
  resume-Moved answers (failed e) f v = v

-- Dropping the future gives its slot back.
pub drop_future-Moved :
    (limit rest slots : ℕ) (phase : Phase) (f : Forwarder)
    → Moved limit rest slots phase f
    → Moved limit rest slots idle (drop_future phase f)
unfolding drop_future opens holds drop_slot
drop_future-Moved limit rest slots (acquiring pod retry) f v = record {
  inv = slots-Inv limit (rest + 1) (rest + 0) _ f (omega arith) (omega (arith, v.inv.few)) v.inv;
  counted = omega (arith, v.counted);
}
drop_future-Moved limit rest slots (opening pod retry) f v = record {
  inv = slots-Inv limit (rest + 1) (rest + 0) _ f (omega arith) (omega (arith, v.inv.few)) v.inv;
  counted = omega (arith, v.counted);
}
drop_future-Moved limit rest slots (filling at pod) f v = record {
  inv = slots-Inv limit (rest + 0) (rest + 0) _ f (omega arith) (omega (arith, v.inv.few)) v.inv;
  counted = omega (arith, v.counted);
}
drop_future-Moved limit rest slots phase f v = record { inv = v.inv; counted = v.counted }

-- A call begins.
pub called-Moved :
    (limit rest slots : ℕ) (phase : Phase) (f : Forwarder)
    → is_over phase ≡ true
    → Moved limit rest slots phase f
    → Moved limit rest slots (resolving true) f
unfolding is_over opens holds
called-Moved limit rest slots idle f over v = record { inv = v.inv; counted = v.counted }
called-Moved limit rest slots (returned at pod) f over v = record {
  inv = v.inv;
  counted = v.counted;
}
called-Moved limit rest slots (failed e) f over v = record { inv = v.inv; counted = v.counted }
called-Moved limit rest slots phase f over v = cc
