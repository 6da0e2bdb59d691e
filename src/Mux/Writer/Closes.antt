-- ===== src/Mux/Writer/Closes.antt =====
-- crates/spdy-mux/src/mux/writer.rs: the deferred close notifications.
use kube_portforward.Prelude.{
  ℕ, ◌≡◌, refl, ap, sym, ◌∙◌, subst, arith, inl, inr, List, [], ◌∷◌, ◌++◌, Bool, true, false,
  Bool-cases, ◌==◌, if◌then◌else◌, append-nil, append_assoc,
}
use kube_portforward.Prelude.Maps.{update}
use kube_portforward.Mux.Channel.{
  Mpsc, MpscLaws, SendResult, sent, full, disconnected, SendResult-cases,
}
use kube_portforward.Mux.Commands.{StreamRegistration}
use kube_portforward.Mux.Reader.{worker_of}
use kube_portforward.Mux.Writer.{Registrations, drain_closes}

-- The third list is the other two, merged with the order of each kept.
pub data Merged : List ℕ → List ℕ → List ℕ → Type 0 where
  neither : Merged [] [] []
  from_left : (x : ℕ) (xs ys zs : List ℕ) → Merged xs ys zs → Merged (x ∷ xs) ys (x ∷ zs)
  from_right : (y : ℕ) (xs ys zs : List ℕ) → Merged xs ys zs → Merged xs (y ∷ ys) (y ∷ zs)

-- The notifications for the streams of one worker.
unfoldable pub notices : ℕ → List ℕ → List StreamRegistration
notices worker [] = []
notices worker (id ∷ ids) =
    let rest = notices worker ids in
    if worker_of id == worker then StreamRegistration.closes id ∷ rest else rest

pub notices-cons :
    (worker id : ℕ) (ids : List ℕ)
    → notices worker (id ∷ ids) ≡ notices worker (id ∷ []) ++ notices worker ids
unfolding notices
notices-cons worker id ids = elim (Bool-cases (worker_of id == worker)) [
  | inl e ↦ rw (e, notices) refl
  | inr e ↦ rw (e, notices) refl
]

module _ {mpsc : Mpsc} (laws : MpscLaws mpsc) where
  abbrev queued : Registrations mpsc → ℕ → List StreamRegistration
  queued txs worker = mpsc.queue StreamRegistration (txs worker)

  abbrev tried : ℕ → Registrations mpsc → SendResult × mpsc.Chan StreamRegistration
  tried id txs =
      mpsc.try_send StreamRegistration (txs (worker_of id)) (StreamRegistration.closes id)

  abbrev after_try : ℕ → Registrations mpsc → Registrations mpsc
  after_try id txs = update txs (worker_of id) (tried id txs).1

  queued-sent :
      (id : ℕ) (txs : Registrations mpsc)
      → (tried id txs).0 ≡ sent
      → (worker : ℕ)
      → queued (after_try id txs) worker ≡ queued txs worker ++ notices worker (id ∷ [])
  unfolding notices
  queued-sent id txs r worker = ground (
    arith,
    append-nil (queued txs worker),
    laws.queue-try_send StreamRegistration (txs (worker_of id)) (StreamRegistration.closes id) r,
  )

  queued-full :
      (id : ℕ) (txs : Registrations mpsc)
      → (tried id txs).0 ≡ full
      → (worker : ℕ) → queued (after_try id txs) worker ≡ queued txs worker
  queued-full id txs r worker = ground (arith, same)
    where
      same : (tried id txs).1 ≡ txs (worker_of id)
      same =
          laws.queue-try_send_refused StreamRegistration (txs (worker_of id))
            (StreamRegistration.closes id) (λ s. cc (r, s))

  -- What is said below of the outcome of `drain_closes`.
  abbrev pub Kept : List ℕ → Registrations mpsc → Registrations mpsc × List ℕ × Bool → Type 0
  Kept closes txs out =
      (done : List ℕ) × Merged done out.1 closes
      × ((worker : ℕ) → queued out.0 worker ≡ queued txs worker ++ notices worker done)

  drain-sent :
      (id : ℕ) (closes : List ℕ) (txs : Registrations mpsc)
      → (tried id txs).0 ≡ sent
      → drain_closes mpsc (id ∷ closes) txs ≡ drain_closes mpsc closes (after_try id txs)
  unfolding drain_closes
  drain-sent id closes txs r = rw (r, drain_closes) refl

  drain-full :
      (id : ℕ) (closes : List ℕ) (txs : Registrations mpsc)
      → (tried id txs).0 ≡ full
      → let (txs', requeued, had_error) = drain_closes mpsc closes (after_try id txs) in
        drain_closes mpsc (id ∷ closes) txs ≡ (txs', id ∷ requeued, had_error)
  unfolding drain_closes
  drain-full id closes txs r = rw (r, drain_closes) refl

  drain-disconnected :
      (id : ℕ) (closes : List ℕ) (txs : Registrations mpsc)
      → (tried id txs).0 ≡ disconnected
      → (drain_closes mpsc (id ∷ closes) txs).2 ≡ true
  unfolding drain_closes
  drain-disconnected id closes txs r = rw (r, drain_closes) refl

  -- If no worker is gone, each stream whose closing was deferred is either in the queue of its
  -- worker now, behind what was there, or kept to be tried again; both in the order in which they
  -- were deferred.
  pub drain_closes-Kept :
      (closes : List ℕ) (txs : Registrations mpsc)
      → (drain_closes mpsc closes txs).2 ≡ false
      → Kept closes txs (drain_closes mpsc closes txs)
  unfolding drain_closes notices
  drain_closes-Kept [] txs h = ([], neither, λ worker. sym (append-nil (queued txs worker)))
  drain_closes-Kept (id ∷ closes) txs h = elim (SendResult-cases (tried id txs).0) [
    | inl r ↦
        let (done, merged, after) =
          drain_closes-Kept closes (after_try id txs)
            (ap (λ o. o.2) (sym (drain-sent id closes txs r)) ∙ h) in
        subst (Kept (id ∷ closes) txs) (sym (drain-sent id closes txs r)) (
          id ∷ done,
          from_left id done _ closes merged,
          λ worker.
              after worker
              ∙ ap (λ q. q ++ notices worker done) (queued-sent id txs r worker)
              ∙ append_assoc (queued txs worker) (notices worker (id ∷ [])) (notices worker done)
              ∙ ap (λ q. queued txs worker ++ q) (sym (notices-cons worker id done)),
        )
    | inr (inl r) ↦
        let (done, merged, after) =
          drain_closes-Kept closes (after_try id txs)
            (ap (λ o. o.2) (sym (drain-full id closes txs r)) ∙ h) in
        subst (Kept (id ∷ closes) txs) (sym (drain-full id closes txs r)) (
          done,
          from_right id done _ closes merged,
          λ worker. after worker ∙ ap (λ q. q ++ notices worker done) (queued-full id txs r worker),
        )
    | inr (inr r) ↦ absurd (cc (h, drain-disconnected id closes txs r))
  ]
