-- ===== src/Mux/Worker/GoAway.antt =====
-- crates/spdy-mux/src/mux/worker.rs: GOAWAY in a worker.
use kube_portforward.Prelude.{
  ℕ, ◌≤◌, ◌<◌, ◌≡◌, ◌≢◌, inl, inr, refl, ◌∙◌, List, [], ◌∷◌, Bool, true, false, Option, none, some,
  Bool-cases, ltb, ◌==◌, ◌&&◌, ◌||◌, if◌then◌else◌, arith, ==_iff,
}
use kube_portforward.Prelude.Maps.{lookup}
use kube_portforward.Mux.Channel.{Mpsc}
use kube_portforward.Mux.Commands.{StreamRegistration}
use kube_portforward.Mux.Window.{poisoned}
use kube_portforward.Mux.Worker.{
  State, StreamState, drop_stream, apply_registration, bad_ids, refuse, refuse_all, send_close,
}
use kube_portforward.Mux.Worker.Teardown.{
  lookup-drop_stream, drop_stream-closed, drop_stream-pending, drop_stream-window, answer-streams,
  answer-windows, lookup-answer,
}

abbrev contains : List ℕ → ℕ → Bool
contains [] j = false
contains (id ∷ ids) j = id == j || contains ids j

is_some {ℓ} : {A : Type ℓ} → Option A → Bool
is_some none = false
is_some (some a) = true

contains-bad_ids :
    (last_good j : ℕ) (sts : List (ℕ × StreamState))
    → contains (bad_ids last_good sts) j ≡ (ltb last_good j && is_some (lookup j sts))
unfolding bad_ids lookup is_some
contains-bad_ids last_good j [] = ground arith
contains-bad_ids last_good j ((id, st) ∷ sts) =
    ground (arith, contains-bad_ids last_good j sts, ==_iff id j)

module _ {mpsc : Mpsc} (last_good status : ℕ) where
  lookup-refuse :
      (id j : ℕ) (ws : State mpsc)
      → lookup j (refuse last_good status id ws).0.streams
        ≡ (if id == j then none else lookup j ws.0.streams)
  unfolding refuse
  lookup-refuse id j ws = rw (answer-streams id _ (drop_stream id ws)) (lookup-drop_stream id j ws)

  pending-refuse :
      (id j : ℕ) (ws : State mpsc)
      → lookup j (refuse last_good status id ws).0.pending_replies
        ≡ (if id == j then none else lookup j ws.0.pending_replies)
  unfolding refuse
  pending-refuse id j ws =
      rw (lookup-answer id j _ (drop_stream id ws), drop_stream-pending id ws) refl

  refuse-windows :
      (id : ℕ) (ws : State mpsc)
      → (refuse last_good status id ws).1.windows ≡ (drop_stream id ws).1.windows
  unfolding refuse send_close
  refuse-windows id ws = answer-windows id _ (drop_stream id ws)

  lookup-refuse_all :
      (ids : List ℕ) (j : ℕ) (ws : State mpsc)
      → lookup j (refuse_all last_good status ids ws).0.streams
        ≡ (if contains ids j then none else lookup j ws.0.streams)
  unfolding refuse_all
  lookup-refuse_all [] j ws = refl
  lookup-refuse_all (id ∷ ids) j ws =
      ground (arith, lookup-refuse_all ids j (refuse last_good status id ws), lookup-refuse id j ws)

  pending-refuse_all :
      (ids : List ℕ) (j : ℕ) (ws : State mpsc)
      → lookup j (refuse_all last_good status ids ws).0.pending_replies
        ≡ (if contains ids j then none else lookup j ws.0.pending_replies)
  unfolding refuse_all
  pending-refuse_all [] j ws = refl
  pending-refuse_all (id ∷ ids) j ws =
      ground
        (arith, pending-refuse_all ids j (refuse last_good status id ws), pending-refuse id j ws)

  -- A window that is closed stays closed.
  drop_stream-poisoned :
      (id at : ℕ) (ws : State mpsc)
      → ws.1.windows at ≡ poisoned
      → (drop_stream id ws).1.windows at ≡ poisoned
  unfolding drop_stream
  drop_stream-poisoned id at (w, s) h = ground arith

  refuse_all-poisoned :
      (ids : List ℕ) (at : ℕ) (ws : State mpsc)
      → ws.1.windows at ≡ poisoned
      → (refuse_all last_good status ids ws).1.windows at ≡ poisoned
  unfolding refuse_all
  refuse_all-poisoned [] at ws h = h
  refuse_all-poisoned (id ∷ ids) at ws h =
      refuse_all-poisoned ids at (refuse last_good status id ws)
        (rw (refuse-windows id ws) (drop_stream-poisoned id at ws h))

  refuse_all-closed :
      (ids : List ℕ) (j : ℕ) (ws : State mpsc) (st : StreamState)
      → contains ids j ≡ true
      → lookup j ws.0.streams ≡ some st
      → (refuse_all last_good status ids ws).1.windows st.send_window ≡ poisoned
  unfolding refuse_all
  refuse_all-closed [] j ws st c e = cc
  refuse_all-closed (id ∷ ids) j ws st c e = elim (Bool-cases (id == j)) [
    | inl same ↦
        refuse_all-poisoned ids st.send_window (refuse last_good status id ws)
          (rw (refuse-windows id ws) (drop_stream-closed id ws st (rw ((==_iff id j).0 same) e)))
    | inr other ↦
        refuse_all-closed ids j (refuse last_good status id ws) st (ground arith)
          (lookup-refuse id j ws ∙ rw other e)
  ]

  refuse_all-window :
      (ids : List ℕ) (at : ℕ) (ws : State mpsc)
      → ((j : ℕ) (st : StreamState)
          → contains ids j ≡ true
          → lookup j ws.0.streams ≡ some st
          → st.send_window ≢ at)
      → (refuse_all last_good status ids ws).1.windows at ≡ ws.1.windows at
  unfolding refuse_all
  refuse_all-window [] at ws h = refl
  refuse_all-window (id ∷ ids) at ws h =
      refuse_all-window ids at (refuse last_good status id ws) later
      ∙ rw (refuse-windows id ws) (drop_stream-window id ws at (λ st e. h id st (ground arith) e))
    where
      later :
          (j : ℕ) (st : StreamState)
          → contains ids j ≡ true
          → lookup j (refuse last_good status id ws).0.streams ≡ some st
          → st.send_window ≢ at
      later j st c e = h j st (ground arith) (ground (arith, lookup-refuse id j ws))

-- What a GOAWAY leaves: `after` is the state behind it.
pub record IsAfterGoAway {mpsc : Mpsc} (last_good : ℕ) (ws after : State mpsc) : Type 0 where
  pub streams :
      (j : ℕ) → lookup j after.0.streams ≡ (if ltb last_good j then none else lookup j ws.0.streams)
  replies_kept :
      (j : ℕ) → j ≤ last_good → lookup j after.0.pending_replies ≡ lookup j ws.0.pending_replies
  pub refused :
      (j : ℕ) (st : StreamState)
      → last_good < j
      → lookup j ws.0.streams ≡ some st
      → (lookup j after.0.pending_replies ≡ none) × (after.1.windows st.send_window ≡ poisoned)
  untouched :
      (at : ℕ)
      → ((j : ℕ) (st : StreamState)
          → last_good < j
          → lookup j ws.0.streams ≡ some st
          → st.send_window ≢ at)
      → after.1.windows at ≡ ws.1.windows at

-- GOAWAY removes exactly the streams above the last good one. Each of them loses its pending reply
-- and has its send window closed. The replies of the others stay pending, and no window changes
-- but those of the removed streams.
pub go_away-IsAfterGoAway :
    {mpsc : Mpsc} (last_good status : ℕ) (ws : State mpsc)
    → IsAfterGoAway last_good ws
        (apply_registration (StreamRegistration.go_away last_good status) ws)
unfolding apply_registration is_some
go_away-IsAfterGoAway last_good status ws =
    let ids = bad_ids last_good ws.0.streams in
    let bad = λ (j : ℕ). contains-bad_ids last_good j ws.0.streams in
    record {
      streams = λ j. ground (arith, lookup-refuse_all last_good status ids j ws, bad j);
      replies_kept = λ j h. ground (arith, pending-refuse_all last_good status ids j ws, bad j);
      refused = λ j st h e. (
        ground (arith, pending-refuse_all last_good status ids j ws, bad j),
        refuse_all-closed last_good status ids j ws st (ground (arith, bad j)) e,
      );
      untouched = λ at h.
          refuse_all-window last_good status ids at ws
            (λ j st c e. h j st (ground (arith, bad j)) e);
    }
