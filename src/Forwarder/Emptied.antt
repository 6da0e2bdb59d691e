-- ===== src/Forwarder/Emptied.antt =====
-- crates/kube-portforward/src/forwarder: the sections that take sessions out of the pool.
use Prim.Native.String.{String}
use kube_portforward.Prelude.{
  ℕ, ◌-◌, ◌<◌, ◌≤◌, ◌≡◌, ◌≢◌, ◌↔◌, inl, inr, refl, sym, ap, subst, ◌∙◌, List, [], ◌∷◌, Option, none,
  Bool, true, false, ◌&&◌, ◌||◌, ltb, length, arith, if◌then◌else◌, Bool-cases,
}
use kube_portforward.Forwarder.{
  Session, PooledSession, Forwarder, cancel, cancelled_session, cancel_all, drain_to,
  refresh_snapshot, extract, retain, is_dead, retire_dead_sessions,
}
use kube_portforward.Forwarder.Prefetches.{is_prunable, prune_once}
use kube_portforward.Forwarder.Calls.{handle_pod_died, names, uid_of}
use kube_portforward.Forwarder.Grows.{cancel_all-Evolves}
use kube_portforward.Forwarder.Pool.{length-extract}

-- Something holds of each entry.
abbrev pub All : (PooledSession → Type 0) → List PooledSession → Type 0
All P [] = Unit
All P (e ∷ entries) = P e × All P entries

abbrev pub IsCancelled : (ℕ → Session) → PooledSession → Type 0
IsCancelled sessions e = (sessions e.session).is_cancelled ≡ true

-- What is cancelled stays cancelled while the rest is cancelled.
cancel_all-IsCancelled :
    (entries : List PooledSession) (sessions : ℕ → Session)
    → All (IsCancelled (cancel_all entries sessions)) entries
unfolding cancel_all cancel cancelled_session
cancel_all-IsCancelled [] sessions = tt
cancel_all-IsCancelled (e ∷ entries) sessions = (
  (cancel_all-Evolves entries (cancel e.session sessions) e.session).stays (ground arith),
  cancel_all-IsCancelled entries (cancel e.session sessions),
)

-- A session that none of the entries names is as it was.
cancel_all-other :
    (entries : List PooledSession) (sessions : ℕ → Session) (at : ℕ)
    → All (λ e. e.session ≢ at) entries
    → cancel_all entries sessions at ≡ sessions at
unfolding cancel_all cancel
cancel_all-other [] sessions at h = refl
cancel_all-other (e ∷ entries) sessions at (ne, h) =
    cancel_all-other entries (cancel e.session sessions) at h ∙ ground arith

-- The third list is the first two, interleaved: every entry is in one of them, in order.
pub data Split : List PooledSession → List PooledSession → List PooledSession → Type 0 where
  both_empty : Split [] [] []
  left :
      {taken kept entries : List PooledSession} (e : PooledSession)
      → Split taken kept entries
      → Split (e ∷ taken) kept (e ∷ entries)
  right :
      {taken kept entries : List PooledSession} (e : PooledSession)
      → Split taken kept entries
      → Split taken (e ∷ kept) (e ∷ entries)

module _ (test : PooledSession → Bool) where
  extract-Split :
      (limit : ℕ) (entries : List PooledSession)
      → Split (extract test limit entries).0 (extract test limit entries).1 entries
  unfolding extract
  extract-Split limit [] = both_empty
  extract-Split limit (e ∷ entries) = elim (Bool-cases (test e && ltb 0 limit)) [
    | inl yes' ↦ rw yes' (left e (extract-Split (limit - 1) entries))
    | inr no' ↦ rw no' (right e (extract-Split limit entries))
  ]

  -- Only entries that pass the test are taken.
  extract_taken :
      (limit : ℕ) (entries : List PooledSession)
      → All (λ e. test e ≡ true) (extract test limit entries).0
  unfolding extract
  extract_taken limit [] = tt
  extract_taken limit (e ∷ entries) =
      ground (arith, extract_taken (if test e && ltb 0 limit then limit - 1 else limit) entries)

  -- With no limit reached, none that pass it stays.
  extract_kept :
      (limit : ℕ) (entries : List PooledSession)
      → length entries ≤ limit
      → All (λ e. test e ≡ false) (extract test limit entries).1
  unfolding extract
  extract_kept limit [] h = tt
  extract_kept limit (e ∷ entries) h =
      ground (arith, extract_kept (if test e && ltb 0 limit then limit - 1 else limit) entries)

-- What a section of the pool takes out: the entries that pass a test, of which all are cancelled
-- afterwards; the sessions of all others are as they were.
pub record Takes (test : PooledSession → Bool) (f g : Forwarder) : Type 0 where
  pub taken : List PooledSession
  pub parts : Split taken g.pool.entries f.pool.entries
  pub passed : All (λ e. test e ≡ true) taken
  pub ended : All (IsCancelled g.sessions) taken
  pub others : (at : ℕ) → All (λ e. e.session ≢ at) taken → g.sessions at ≡ f.sessions at
  pub target : g.pool.target ≡ f.pool.target

retain_entries :
    (parts : List PooledSession × List PooledSession) (f : Forwarder)
    → (retain parts f).pool.entries ≡ parts.1
unfolding retain refresh_snapshot
retain_entries (taken, kept) f = ground arith

retain-Takes :
    (test : PooledSession → Bool) (limit : ℕ) (f : Forwarder)
    → Takes test f (retain (extract test limit f.pool.entries) f)
unfolding retain refresh_snapshot
retain-Takes test limit f = record {
  taken = (extract test limit f.pool.entries).0;
  parts =
      subst
        (λ (kept : List PooledSession).
          Split (extract test limit f.pool.entries).0 kept f.pool.entries)
        (sym (retain_entries (extract test limit f.pool.entries) f))
        (extract-Split test limit f.pool.entries);
  passed = extract_taken test limit f.pool.entries;
  ended = cancel_all-IsCancelled (extract test limit f.pool.entries).0 f.sessions;
  others = cancel_all-other (extract test limit f.pool.entries).0 f.sessions;
  target = ground arith;
}

length-retain :
    (test : PooledSession → Bool) (limit : ℕ) (f : Forwarder)
    → limit < length f.pool.entries
    → 0 < length (retain (extract test limit f.pool.entries) f).pool.entries
length-retain test limit f h =
    let same = retain_entries (extract test limit f.pool.entries) f in
    omega (arith, ap length same, length-extract test limit f.pool.entries)

-- Pruning takes out only sessions that are cancelled, or carry no stream and are older than the
-- given age; each of these is cancelled, and all other sessions and the target are left as they
-- were. A pool that is not empty is not empty afterwards.
pub prune_once-Takes :
    (now idle_age : ℕ) (f : Forwarder)
    → Takes (is_prunable now idle_age f.sessions) f (prune_once now idle_age f)
      × (0 < length f.pool.entries → 0 < length (prune_once now idle_age f).pool.entries)
unfolding prune_once
prune_once-Takes now idle_age f = (
  retain-Takes (is_prunable now idle_age f.sessions) (length f.pool.entries - 1) f,
  λ h.
      length-retain (is_prunable now idle_age f.sessions) (length f.pool.entries - 1) f
        (omega arith),
)

is_dead_apart :
    (sessions : ℕ → Session) (e : PooledSession) (taken : List PooledSession)
    → is_dead sessions e ≡ false
    → All (λ t. is_dead sessions t ≡ true) taken
    → All (λ t. t.session ≢ e.session) taken
unfolding is_dead
is_dead_apart sessions e [] alive h = tt
is_dead_apart sessions e (t ∷ taken) alive (dead, h) = (
  λ same. cc (ap (λ (a : ℕ). (sessions a).is_cancelled || (sessions a).is_drained) same),
  is_dead_apart sessions e taken alive h,
)

All_alive :
    (f g : Forwarder) (taken kept : List PooledSession)
    → ((at : ℕ) → All (λ e. e.session ≢ at) taken → g.sessions at ≡ f.sessions at)
    → All (λ t. is_dead f.sessions t ≡ true) taken
    → All (λ e. is_dead f.sessions e ≡ false) kept
    → All (λ e. is_dead g.sessions e ≡ false) kept
unfolding is_dead
All_alive f g taken [] same dead alive = tt
All_alive f g taken (e ∷ kept) same dead (this, alive) = (
  rw (same e.session (is_dead_apart f.sessions e taken this dead)) this,
  All_alive f g taken kept same dead alive,
)

-- Retiring takes out only sessions that are cancelled or drained, cancels them, and leaves all other
-- sessions and the target as they were; afterwards no session of the pool is cancelled or drained.
retire_dead_sessions-Takes :
    (f : Forwarder)
    → Takes (is_dead f.sessions) f (retire_dead_sessions f)
      × All
          (λ e. is_dead (retire_dead_sessions f).sessions e ≡ false)
          (retire_dead_sessions f).pool.entries
unfolding retire_dead_sessions
retire_dead_sessions-Takes f =
    let limit = length f.pool.entries in
    let parts = extract (is_dead f.sessions) limit f.pool.entries in
    let takes = retain-Takes (is_dead f.sessions) limit f in
    (
      takes,
      subst
          (λ (kept : List PooledSession).
            All (λ e. is_dead (retain parts f).sessions e ≡ false) kept)
          (sym (retain_entries parts f))
          (All_alive f (retain parts f) takes.taken parts.1 takes.others takes.passed
            (extract_kept (is_dead f.sessions) limit f.pool.entries (omega arith))),
    )

-- When a pod is said to have died, the pool is drained exactly if that is the name of the target and
-- the watcher's store does not hold the target's identity any more. Draining clears the target, the
-- entries and the snapshot, and cancels every session that was in the pool; otherwise nothing
-- changes.
pub handle_pod_died_drains :
    (contains_identity : String → Option String → Bool) (dead : String) (f : Forwarder)
    → let (drained, g) = handle_pod_died contains_identity dead f in
      ((drained ≡ true) ↔ (
        (names f.pool.target dead ≡ true)
        × (contains_identity dead (uid_of f.pool.target) ≡ false)))
      × (drained ≡ true
          → (g.pool.target ≡ none)
            × (g.pool.entries ≡ [])
            × (g.pool.snapshot ≡ [])
            × All (IsCancelled g.sessions) f.pool.entries)
      × (drained ≡ false → g ≡ f)
unfolding handle_pod_died drain_to refresh_snapshot
handle_pod_died_drains contains_identity dead f =
    ground (arith, cancel_all-IsCancelled f.pool.entries f.sessions)
