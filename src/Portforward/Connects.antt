-- ===== src/Portforward/Connects.antt =====
-- crates/kube-portforward/src/session.rs and forwarder/mod.rs: what `connect` answers, and what
-- `connect_on_pod` makes of it.
use kube_portforward.Prelude.{ℕ, suc, ◌≡◌, ◌≢◌, inl, inr, refl, sym, ◌∙◌, [], false, arith}
use kube_portforward.Error.{Result, ok, err, Error}
use kube_portforward.Mux.Channel.{Mpsc}
use kube_portforward.Session
use kube_portforward.Pods.{ReadyPod}
use kube_portforward.Forwarder.{Forwarder, capacity_exhausted}
use kube_portforward.Forwarder
use kube_portforward.Portforward.{
  Stream, PortSession, Answer, Attempt, from_opened, portforward_headers, open_new_stream, connect,
  connect_rounds, connect_on_pod,
}
use kube_portforward.Portforward.Spares.{Connected, spare, fresh, connect-Connected}

module _ {mpsc : Mpsc} where
  from_opened_error :
      (p : PortSession mpsc) (answer : Result ℕ) (inner : Session.Session mpsc) (a b : ℕ)
      → (from_opened p (answer, inner)).0 ≢ inl (capacity_exhausted a b)
  from_opened_error p (ok frame_size) inner a b e = cc
  from_opened_error p (err problem) inner a b e = cc

  Connected-error :
      (elapsed : ℕ) (p : PortSession mpsc) (r : Answer Stream × PortSession mpsc) (a b : ℕ)
      → Connected elapsed p r
      → r.0 ≢ inl (capacity_exhausted a b)
  unfolding open_new_stream
  Connected-error elapsed p r a b (spare stale stream rest all open' e) h = cc
  Connected-error elapsed p r a b (fresh all) h =
      let q = record p { spare_streams = [] } in
      from_opened_error (portforward_headers q).1 (Session.open_stream_pair elapsed q.inner).0
        (Session.open_stream_pair elapsed q.inner).1 a b h

  connect_error :
      (elapsed : ℕ) (p : PortSession mpsc) (a b : ℕ)
      → (connect elapsed p).0 ≢ inl (capacity_exhausted a b)
  connect_error elapsed p a b =
      Connected-error elapsed p (connect elapsed p) a b (connect-Connected elapsed p)

-- A round whose error is passed on, whichever it is.
abbrev pub once : Attempt → Answer (Stream × ReadyPod)
once attempt = elim attempt.ensured [
  | inl e ↦ inl e
  | inr pod ↦ elim attempt.connected [ inr stream ↦ inr (stream, pod) | inl e ↦ inl e ]
]

-- What a round makes of its two answers, before the next.
abbrev after_round :
    Answer ReadyPod → Answer Stream → Answer (Stream × ReadyPod) → Answer (Stream × ReadyPod)
after_round ensured connected rest = elim ensured [
  | inl e ↦ inl e
  | inr pod ↦ elim connected [
    | inr stream ↦ inr (stream, pod)
    | inl (capacity_exhausted in_use limit) ↦ rest
    | inl e ↦ inl e
  ]
]

after_round-once :
    (ensured : Answer ReadyPod) (connected : Answer Stream) (rest : Answer (Stream × ReadyPod))
    → ((a b : ℕ) → connected ≢ inl (capacity_exhausted a b))
    → after_round ensured connected rest
      ≡ once (record { ensured = ensured; connected = connected })
after_round-once (inl e) connected rest never = refl
after_round-once (inr pod) (inr stream) rest never = refl
after_round-once (inr pod) (inl (capacity_exhausted a b)) rest never = absurd (never a b refl)
after_round-once (inr pod) (inl e) rest never = refl

module _ {mpsc : Mpsc} where
  -- The loop of `connect_on_pod` makes one round: where the streams come from `connect`, the answer is
  -- that of the first round, whatever its error, for a port that is not zero, a forwarder that is not
  -- shut down and at least one round.
  pub connect_on_pod-once :
      (rounds target_port : ℕ) (attempts : ℕ → Attempt)
      → target_port ≢ 0
      → ((n : ℕ)
          → (elapsed : ℕ) × (p : PortSession mpsc) × ((attempts n).connected
              ≡ (connect elapsed p).0))
      → connect_on_pod false (suc rounds) target_port attempts ≡ once (attempts rounds)
  unfolding connect_on_pod connect_rounds
  connect_on_pod-once rounds target_port attempts port from =
      let (elapsed, p, e) = from rounds in
      ground (
        arith,
        after_round-once (attempts rounds).ensured (attempts rounds).connected
            (connect_rounds rounds (suc rounds) attempts)
            (λ a b h. connect_error elapsed p a b (sym e ∙ h)),
      )

  -- The spare streams and the handles are as they were.
  abbrev pub AddsNothing : PortSession mpsc → PortSession mpsc → Type 0
  AddsNothing p q = (q.spare_streams ≡ p.spare_streams) × (q.inner.pool ≡ p.inner.pool)
