-- ===== src/Mux/Reader/Idle.antt =====
-- crates/spdy-mux/src/mux/reader.rs: the reader's probe PING and its timeout.
use kube_portforward.Prelude.{
  ℕ, ◌+◌, ◌<◌, ◌≡◌, ◌⊎◌, inl, inr, refl, ap, sym, ◌∙◌, subst, true, false, none, some, Bool-cases,
  arith,
}
use kube_portforward.Flate.{Flate}
use kube_portforward.Mux.Channel.{Mpsc}
use kube_portforward.Mux.Reader.Loop.{
  Event, cancelled, idle_elapsed, binary, ws_ping, ws_close, ws_error, Turn, Reader, heard,
  control_of, probe_expired, idle_armed, on_idle, on_binary, on_event, turn,
}

module _ {mpsc : Mpsc} {flate : Flate} where
  -- After an event that does not end the loop there is no probe, or the event was the sending of it.
  abbrev Fresh : ℕ → Reader mpsc flate → Type 0
  Fresh now r = (r.idle_probe_sent_at ≡ none) ⊎ (r.idle_probe_sent_at ≡ some now)

  on_event-Fresh :
      (now : ℕ) (e : Event) (r : Reader mpsc flate)
      → (e ≡ idle_elapsed → idle_armed r ≡ true)
      → (on_event now e r).1 ≡ false
      → Fresh now (on_event now e r).0
  unfolding on_event on_idle on_binary heard control_of
  on_event-Fresh now cancelled r armed k = absurd cc
  on_event-Fresh now idle_elapsed r armed k = rw (armed refl, on_idle) (inr refl)
  on_event-Fresh now (binary payload) r armed k = inl refl
  on_event-Fresh now (ws_ping p) r armed k = inl refl
  on_event-Fresh now ws_close r armed k = absurd cc
  on_event-Fresh now ws_error r armed k = absurd cc

  probe_expired-Fresh :
      (now d : ℕ) (r : Reader mpsc flate)
      → d < r.context.config.ping_timeout
      → Fresh now r
      → probe_expired (now + d) r ≡ false
  unfolding probe_expired
  probe_expired-Fresh now d r h (inl e) = rw (e) refl
  probe_expired-Fresh now d r h (inr e) = rw (e) (ground arith)

  turn_expired :
      (t : Turn) (r : Reader mpsc flate) → probe_expired t.top r ≡ true → turn t r ≡ (r, true)
  unfolding turn
  turn_expired t r e = rw (e, turn) refl

  turn_step :
      (t : Turn) (r : Reader mpsc flate)
      → probe_expired t.top r ≡ false
      → turn t r ≡ on_event t.now t.event r
  unfolding turn
  turn_step t r e = rw (e, turn) refl

  -- After each turn of the reader's loop, the probe has not expired when the top of the loop is
  -- reached again, unless getting there from the event's handling takes the whole ping timeout: what
  -- the loop waits for while a probe is out either forgets the probe or ends the loop. The sleep must
  -- fire only while it is armed, as `select!` sees to.
  turn_probe :
      (t : Turn) (r : Reader mpsc flate) (d : ℕ)
      → (t.event ≡ idle_elapsed → idle_armed r ≡ true)
      → (turn t r).1 ≡ false
      → d < (turn t r).0.context.config.ping_timeout
      → probe_expired (t.now + d) (turn t r).0 ≡ false
  turn_probe t r d armed k h = elim (Bool-cases (probe_expired t.top r)) [
    | inl e ↦ absurd (cc (k, ap (λ p. p.1) (turn_expired t r e)))
    | inr e ↦ probe_expired-Fresh t.now d (turn t r).0 h (
        subst (λ p. Fresh t.now p.0) (sym (turn_step t r e))
          (on_event-Fresh t.now t.event r armed (sym (ap (λ p. p.1) (turn_step t r e)) ∙ k)))
  ]
