-- ===== src/Portforward/Spares.antt =====
-- crates/kube-portforward/src/session.rs: the spare streams.
use kube_portforward.Prelude.{
  ℕ, zero, suc, ◌+◌, ◌<◌, ◌≤◌, ◌≡◌, ◌⊎◌, inl, inr, refl, sym, ap, ◌∙◌, List, [], ◌∷◌, ◌++◌,
  append-nil, append_assoc, Option, none, some, Bool, true, false, not, ◌||◌, ltb, length,
  length-append, if◌then◌else◌, arith,
}
use kube_portforward.Mux.Channel.{Mpsc}
use kube_portforward.Error.{Result, ok, err}
use kube_portforward.Session
use kube_portforward.Forwarder.{ForwardError}
use kube_portforward.Portforward.{
  Stream, PortSession, Answer, spare_stream_cap, pop_open, portforward_headers, from_opened,
  open_new_stream, connect, on_spare, replenish_loop, replenish_spare_streams,
}

-- All of these streams are closed.
abbrev pub AllClosed : List Stream → Type 0
AllClosed [] = Unit
AllClosed (stream ∷ spares) = (stream.is_read_closed ≡ true) × AllClosed spares

-- The first stream that is open, behind some that are closed; or none is open.
pub data Popped (spares : List Stream) : Option Stream × List Stream → Type 0 where
  first_open :
      (stale : List Stream) (stream : Stream) (rest : List Stream)
      → AllClosed stale
      → stream.is_read_closed ≡ false
      → spares ≡ stale ++ stream ∷ rest
      → Popped spares (some stream, rest)
  none_open : AllClosed spares → Popped spares (none, [])

Popped-cons :
    (stream : Stream) (spares : List Stream) (r : Option Stream × List Stream)
    → stream.is_read_closed ≡ true
    → Popped spares r
    → Popped (stream ∷ spares) r
Popped-cons stream spares r closed (first_open stale found rest all open' e) =
    first_open (stream ∷ stale) found rest (closed, all) open' (ap (◌∷◌ stream) e)
Popped-cons stream spares r closed (none_open all) = none_open (closed, all)

if-Popped :
    (spares : List Stream) (b : Bool) (x y : Option Stream × List Stream)
    → (b ≡ true → Popped spares x)
    → (b ≡ false → Popped spares y)
    → Popped spares (if b then x else y)
if-Popped spares true x y p q = p refl
if-Popped spares false x y p q = q refl

pop_open-Popped : (spares : List Stream) → Popped spares (pop_open spares)
unfolding pop_open
pop_open-Popped [] = none_open tt
pop_open-Popped (stream ∷ spares) =
    if-Popped (stream ∷ spares) (not stream.is_read_closed) (some stream, spares) (pop_open spares)
      (λ b. first_open [] stream spares tt (ground arith) refl)
      (λ b. Popped-cons stream spares (pop_open spares) (ground arith) (pop_open-Popped spares))

module _ {mpsc : Mpsc} where
  -- What `connect` comes to: the first spare that is open, or a new stream.
  pub data Connected (elapsed : ℕ) (p : PortSession mpsc)
      : Answer Stream × PortSession mpsc → Type 0 where
    spare :
        (stale : List Stream) (stream : Stream) (rest : List Stream)
        → AllClosed stale
        → stream.is_read_closed ≡ false
        → p.spare_streams ≡ stale ++ stream ∷ rest
        → Connected elapsed p (inr stream, record p { spare_streams = rest })
    fresh :
        AllClosed p.spare_streams
        → Connected elapsed p (open_new_stream elapsed (record p { spare_streams = [] }))

  connect-Popped :
      (elapsed : ℕ) (p : PortSession mpsc) (r : Option Stream × List Stream)
      → Popped p.spare_streams r
      → Connected elapsed p (elim r.0 [
        | some stream ↦ (inr stream, record p { spare_streams = r.1 })
        | none ↦ open_new_stream elapsed (record p { spare_streams = r.1 })
      ])
  connect-Popped elapsed p r (first_open stale stream rest all open' e) =
      spare stale stream rest all open' e
  connect-Popped elapsed p r (none_open all) = fresh all

  -- Connecting takes the first spare stream whose remote end is open, throwing away the closed ones
  -- before it and keeping those behind it; only if every spare is closed does it open a new stream,
  -- with no spares left.
  pub connect-Connected :
      (elapsed : ℕ) (p : PortSession mpsc) → Connected elapsed p (connect elapsed p)
  unfolding connect
  connect-Connected elapsed p =
      connect-Popped elapsed p (pop_open p.spare_streams) (pop_open-Popped p.spare_streams)

  -- How the loop of `replenish_spare_streams` ends: `added` are the streams that it opened.
  pub record Replenished (elapsed : ℕ) (p q : PortSession mpsc) : Type 0 where
    pub added : List Stream
    pub spares : q.spare_streams ≡ p.spare_streams ++ added
    pub capped :
        length p.spare_streams ≤ spare_stream_cap → length q.spare_streams ≤ spare_stream_cap
    pub why :
        (spare_stream_cap ≤ length q.spare_streams)
        ⊎ (((Session.is_full q.inner || q.inner.cancel) ≡ true)
            ⊎ ((before : PortSession mpsc) × (e : ForwardError) × (open_new_stream elapsed before
                  ≡ (inl e, q))))

  -- One round, after the tests.
  on_spare-Replenished :
      (elapsed : ℕ) (p q : PortSession mpsc) (answer : Answer Stream)
      (further : PortSession mpsc → PortSession mpsc)
      → open_new_stream elapsed p ≡ (answer, q)
      → q.spare_streams ≡ p.spare_streams
      → length p.spare_streams < spare_stream_cap
      → ((r : PortSession mpsc)
          → length r.spare_streams ≡ length p.spare_streams + 1
          → Replenished elapsed r (further r))
      → Replenished elapsed p (on_spare (answer, q) further)
  on_spare-Replenished elapsed p q (inl e) further eq same room next = record {
    added = [];
    spares = same ∙ sym (append-nil p.spare_streams);
    capped = λ h. omega (arith, ap length same);
    why = inr (inr (p, e, eq));
  }
  on_spare-Replenished elapsed p q (inr stream) further eq same room next =
      let r = record q { spare_streams = q.spare_streams ++ stream ∷ [] } in
      let done =
        next r
          (length-append q.spare_streams (stream ∷ []) ∙ ap (λ (n : ℕ). n + 1) (ap length same)) in
      record {
        added = stream ∷ done.added;
        spares =
            done.spares
            ∙ append_assoc q.spare_streams (stream ∷ []) done.added
            ∙ ap (λ (l : List Stream). l ++ stream ∷ done.added) same;
        capped = λ h.
            done.capped
              (omega (arith, length-append q.spare_streams (stream ∷ []), ap length same));
        why = done.why;
      }

  from_opened_spares :
      (p : PortSession mpsc) (answer : Result ℕ) (inner : Session.Session mpsc)
      → (from_opened p (answer, inner)).1.spare_streams ≡ p.spare_streams
  from_opened_spares p (ok frame_size) inner = refl
  from_opened_spares p (err e) inner = refl

  pub open_new_stream_spares :
      (elapsed : ℕ) (p : PortSession mpsc)
      → (open_new_stream elapsed p).1.spare_streams ≡ p.spare_streams
  unfolding open_new_stream portforward_headers
  open_new_stream_spares elapsed p =
      from_opened_spares (portforward_headers p).1 (Session.open_stream_pair elapsed p.inner).0
        (Session.open_stream_pair elapsed p.inner).1

  stopped :
      (elapsed : ℕ) (p : PortSession mpsc)
      → ((spare_stream_cap ≤ length p.spare_streams)
          ⊎ ((Session.is_full p.inner || p.inner.cancel) ≡ true))
      → Replenished elapsed p p
  stopped elapsed p why = record {
    added = [];
    spares = sym (append-nil p.spare_streams);
    capped = λ h. h;
    why = elim why [ inl full ↦ inl full | inr other ↦ inr (inl other) ];
  }

  if-Replenished :
      (elapsed : ℕ) (p : PortSession mpsc) (b : Bool) (x y : PortSession mpsc)
      → (b ≡ true → Replenished elapsed p x)
      → (b ≡ false → Replenished elapsed p y)
      → Replenished elapsed p (if b then x else y)
  if-Replenished elapsed p true x y f g = f refl
  if-Replenished elapsed p false x y f g = g refl

  replenish_loop-Replenished :
      (rounds elapsed : ℕ) (p : PortSession mpsc)
      → spare_stream_cap ≤ length p.spare_streams + rounds
      → Replenished elapsed p (replenish_loop rounds elapsed p)
  unfolding replenish_loop
  replenish_loop-Replenished zero elapsed p enough = stopped elapsed p (inl (omega arith))
  replenish_loop-Replenished (suc rounds) elapsed p enough =
      if-Replenished elapsed p (not (ltb (length p.spare_streams) spare_stream_cap)) p _
        (λ full. stopped elapsed p (inl (ground arith)))
        (λ room.
          if-Replenished elapsed p (Session.is_full p.inner || p.inner.cancel) p _
            (λ over. stopped elapsed p (inr over))
            (λ going.
              on_spare-Replenished elapsed p (open_new_stream elapsed p).1
                (open_new_stream elapsed p).0 (replenish_loop rounds elapsed) refl
                (open_new_stream_spares elapsed p) (ground arith)
                (λ r more. replenish_loop-Replenished rounds elapsed r (omega arith))))

  -- A run of `replenish_spare_streams` that no other is in the way of adds streams behind the spares
  -- that there are, to sixteen at most, and stops only when there are sixteen, or the session is full
  -- or cancelled, or a stream could not be opened; and the flag is clear afterwards. Where another run
  -- is under way nothing is done.
  pub replenish_spare_streams-Replenished :
      (elapsed : ℕ) (p : PortSession mpsc)
      → (p.replenishing ≡ true → replenish_spare_streams elapsed p ≡ p)
        × (p.replenishing ≡ false
            → (q : PortSession mpsc) × Replenished elapsed (record p { replenishing = true }) q
              × (replenish_spare_streams elapsed p ≡ record q { replenishing = false }))
  unfolding replenish_spare_streams
  replenish_spare_streams-Replenished elapsed p = (
    λ busy. ground arith,
    λ free. (
      replenish_loop spare_stream_cap elapsed (record p { replenishing = true }),
      replenish_loop-Replenished spare_stream_cap elapsed (record p { replenishing = true })
          (omega arith),
      ground arith,
    ),
  )
