-- ===== src/Mux/Worker/Teardown.antt =====
-- crates/spdy-mux/src/mux/worker.rs: RST_STREAM and close registrations.
use kube_portforward.Prelude.{
  ℕ, ◌≡◌, ◌≢◌, inl, inr, refl, sym, List, [], ◌∷◌, ◌++◌, Option, none, some, Option-cases, ◌==◌,
  if◌then◌else◌, arith, append-nil, ==_iff,
}
use kube_portforward.Prelude.Maps.{lookup, lookup-remove}
use kube_portforward.Error.{Result, err, stream_reset}
use kube_portforward.Frame.{Frame}
use kube_portforward.Mux.Channel.{Mpsc}
use kube_portforward.Mux.Commands.{StreamRegistration}
use kube_portforward.Mux.Window.{poisoned}
use kube_portforward.Mux.Worker.{
  State, StreamState, answer, drop_stream, dispatch_frame_in_worker, apply_registration,
}

-- What is answered to the pending reply of a stream, if there is one.
abbrev pub answers : Option ℕ → Result (Unit {0}) → List (ℕ × Result (Unit {0}))
answers none r = []
answers (some at) r = (at, r) ∷ []

module _ {mpsc : Mpsc} (ws : State mpsc) (id : ℕ) where
  -- The stream `id` is gone: both maps have lost it and no other entry, and its window is closed.
  pub record IsGone (after : State mpsc) : Type 0 where
    pub streams :
        (j : ℕ) → lookup j after.0.streams ≡ (if id == j then none else lookup j ws.0.streams)
    pub replies :
        (j : ℕ)
        → lookup j after.0.pending_replies
          ≡ (if id == j then none else lookup j ws.0.pending_replies)
    pub closed :
        (st : StreamState)
        → lookup id ws.0.streams ≡ some st
        → after.1.windows st.send_window ≡ poisoned

module _ {mpsc : Mpsc} where
  pub lookup-drop_stream :
      (id j : ℕ) (ws : State mpsc)
      → lookup j (drop_stream id ws).0.streams ≡ (if id == j then none else lookup j ws.0.streams)
  unfolding drop_stream
  lookup-drop_stream id j (w, s) = ground (arith, lookup-remove id j w.streams, ==_iff id j)

  pub drop_stream-closed :
      (id : ℕ) (ws : State mpsc) (st : StreamState)
      → lookup id ws.0.streams ≡ some st
      → (drop_stream id ws).1.windows st.send_window ≡ poisoned
  unfolding drop_stream
  drop_stream-closed id (w, s) st e = ground arith

  pub drop_stream-pending :
      (id : ℕ) (ws : State mpsc) → (drop_stream id ws).0.pending_replies ≡ ws.0.pending_replies
  unfolding drop_stream
  drop_stream-pending id (w, s) = ground arith

  drop_stream-replies : (id : ℕ) (ws : State mpsc) → (drop_stream id ws).1.replies ≡ ws.1.replies
  unfolding drop_stream
  drop_stream-replies id (w, s) = ground arith

  -- A window that is not the stream's own is not touched.
  pub drop_stream-window :
      (id : ℕ) (ws : State mpsc) (at : ℕ)
      → ((st : StreamState) → lookup id ws.0.streams ≡ some st → st.send_window ≢ at)
      → (drop_stream id ws).1.windows at ≡ ws.1.windows at
  unfolding drop_stream
  drop_stream-window id (w, s) at other = elim (Option-cases (lookup id w.streams)) [
    | inl e ↦ rw (e, drop_stream) refl
    | inr (st, e) ↦ ground (arith, e, other st e)
  ]

  pub answer-streams :
      (id : ℕ) (r : Result (Unit {0})) (ws : State mpsc) → (answer id r ws).0.streams ≡ ws.0.streams
  unfolding answer
  answer-streams id r (w, s) = ground arith

  pub answer-windows :
      (id : ℕ) (r : Result (Unit {0})) (ws : State mpsc) → (answer id r ws).1.windows ≡ ws.1.windows
  unfolding answer
  answer-windows id r (w, s) = ground arith

  pub lookup-answer :
      (id j : ℕ) (r : Result (Unit {0})) (ws : State mpsc)
      → lookup j (answer id r ws).0.pending_replies
        ≡ (if id == j then none else lookup j ws.0.pending_replies)
  unfolding answer
  lookup-answer id j r (w, s) = ground (arith, lookup-remove id j w.pending_replies, ==_iff id j)

  answer-replies :
      (id : ℕ) (r : Result (Unit {0})) (ws : State mpsc)
      → (answer id r ws).1.replies ≡ ws.1.replies ++ answers (lookup id ws.0.pending_replies) r
  unfolding answer
  answer-replies id r (w, s) = elim (Option-cases (lookup id w.pending_replies)) [
    | inl e ↦ rw (e, answer) (sym (append-nil s.replies))
    | inr (at, e) ↦ rw (e, answer) refl
  ]

  -- RST_STREAM for a stream removes the stream and its pending reply and nothing else, closes its
  -- send window if it had one, so that its writer fails instead of waiting, and answers the reply
  -- that was pending, if one was, with the peer's status.
  pub rst_stream-IsGone :
      (initial_window id status : ℕ) (ws : State mpsc)
      → let after = dispatch_frame_in_worker initial_window (Frame.rst_stream id status) ws in
        IsGone ws id after
        × (after.1.replies
            ≡ ws.1.replies
              ++ answers (lookup id ws.0.pending_replies) (err (stream_reset id status)))
  unfolding dispatch_frame_in_worker
  rst_stream-IsGone initial_window id status ws =
      let r : Result (Unit {0}) = err (stream_reset id status) in
      (
        record {
          streams = λ j. rw (answer-streams id r (drop_stream id ws)) (lookup-drop_stream id j ws);
          replies =
              λ j. rw (lookup-answer id j r (drop_stream id ws), drop_stream-pending id ws) refl;
          closed =
              λ st e. rw (answer-windows id r (drop_stream id ws)) (drop_stream-closed id ws st e);
        },
        rw
            (
              answer-replies id r (drop_stream id ws),
              drop_stream-pending id ws,
              drop_stream-replies id ws,
            )
            refl,
      )

  -- A close registration for a stream removes the stream and its pending reply and nothing else,
  -- closes its send window if it had one, and leaves the reply that was pending unanswered.
  closes-IsGone :
      (id : ℕ) (ws : State mpsc)
      → let after = apply_registration (StreamRegistration.closes id) ws in
        IsGone ws id after × (after.1.replies ≡ ws.1.replies)
  unfolding apply_registration
  closes-IsGone id ws = (
    record {
      streams = λ j. lookup-drop_stream id j ws;
      replies = λ j. rw (drop_stream-pending id ws) (lookup-remove id j ws.0.pending_replies);
      closed = λ st e. drop_stream-closed id ws st e;
    },
    drop_stream-replies id ws,
  )
