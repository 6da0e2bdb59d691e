-- ===== src/Mux/Stream/Lazy.antt =====
-- crates/spdy-mux/src/stream.rs: the first use of a stream, and its drop.
use kube_portforward.Prelude.{ℕ, ◌≡◌, refl, ap, ◌∙◌, Bool, true, false, Option, none, some, arith}
use kube_portforward.Error.{ok, err}
use kube_portforward.Frame.{Headers}
use kube_portforward.Mux.Channel.{Mpsc}
use kube_portforward.Mux.Handle.{
  MuxHandle, Outcome, release_pair, send_closed, decrement, reserve_permits, enqueue_open,
  register_data, register_pair, allocate_pair, realize_stream_pair,
}
use kube_portforward.Mux.Guard.{
  StreamGuard, disarm, drop_release_guard, send_permit_close, drop_control_permit, send_reset,
  drop_stream_guard,
}
use kube_portforward.Mux.Stream.{
  Unopened, StreamState, unopened, opened, finish_unopened_stream, taken, after_realize,
  open_unopened, ensure_open, drop_stream_state,
}

-- Realizing a pair leaves the number of open pairs alone.
module _ {mpsc : Mpsc} (error_id data_id : ℕ) where
  reserve_permits-pairs :
      (window : ℕ) (h : MuxHandle mpsc)
      → (reserve_permits error_id data_id window h).1.active_pairs ≡ h.active_pairs
  unfolding reserve_permits send_closed
  reserve_permits-pairs window h = ground arith

  enqueue_open-pairs :
      (eh dh : Headers) (window : ℕ) (h : MuxHandle mpsc)
      → (enqueue_open error_id data_id eh dh window h).1.active_pairs ≡ h.active_pairs
  unfolding enqueue_open send_closed
  enqueue_open-pairs eh dh window h = grind (arith, reserve_permits-pairs)

  register_data-pairs :
      (eh dh : Headers) (data_tx reply_tx window : ℕ) (h : MuxHandle mpsc)
      → (register_data error_id data_id eh dh data_tx reply_tx window h).1.active_pairs
        ≡ h.active_pairs
  unfolding register_data send_closed
  register_data-pairs eh dh data_tx reply_tx window h = grind (arith, enqueue_open-pairs)

  register_pair-pairs :
      (eh dh : Headers) (data_tx error_tx : ℕ) (h : MuxHandle mpsc)
      → (register_pair error_id data_id eh dh data_tx error_tx h).1.active_pairs ≡ h.active_pairs
  unfolding register_pair
  register_pair-pairs eh dh data_tx error_tx h = grind (arith, register_data-pairs)

module _ {mpsc : Mpsc} where
  realize-pairs :
      (early : Bool) (eh dh : Headers) (data_tx error_tx : ℕ) (h : MuxHandle mpsc)
      → (realize_stream_pair early eh dh data_tx error_tx h).1.active_pairs ≡ h.active_pairs
  unfolding realize_stream_pair allocate_pair
  realize-pairs early eh dh data_tx error_tx h = grind (arith, register_pair-pairs)

  drop_stream_guard-pairs :
      (g : StreamGuard) (h : MuxHandle mpsc)
      → (drop_stream_guard g h).active_pairs ≡ decrement h.active_pairs
  unfolding drop_stream_guard release_pair send_permit_close drop_control_permit send_reset
  drop_stream_guard-pairs g h = ground arith

  -- If the first use of a stream could not open it, no later use can, whatever has become of the
  -- handle, and the handle is left alone from then on: the senders that the workers would need were
  -- given away.
  ensure_open_final :
      (early : Bool) (s : StreamState) (h : MuxHandle mpsc)
      → (ensure_open early s h).0 ≡ false
      → (early' : Bool) (h' : MuxHandle mpsc)
      → ensure_open early' (ensure_open early s h).1 h' ≡ (false, (ensure_open early s h).1, h')
  unfolding ensure_open open_unopened after_realize taken
  ensure_open_final early (opened o) h e early' h' = absurd cc
  ensure_open_final early (unopened u) h e early' h' = from_pending u.pending_txs e
    where
      from_pending :
          (p : Option (ℕ × ℕ))
          → (open_unopened early u p h).0 ≡ false
          → ensure_open early' (open_unopened early u p h).1 h'
            ≡ (false, (open_unopened early u p h).1, h')
      from_pending none e = refl
      from_pending (some (data_tx, error_tx)) e =
          from_result (realize_stream_pair early u.error_headers u.data_headers data_tx error_tx h)
            e
        where
          from_result :
              (r : Outcome mpsc)
              → (after_realize u r).0 ≡ false
              → ensure_open early' (after_realize u r).1 h' ≡ (false, (after_realize u r).1, h')
          from_result (err x, h1) e = refl
          from_result (ok parts, h1) e = absurd cc

  -- A stream that was reserved and then used, be it opened or not, gives its place back exactly once:
  -- however the attempt to open it ends, dropping the stream takes one from the number of open pairs
  -- that there were before.
  drop-ensure_open :
      (early : Bool) (u : Unopened) (h : MuxHandle mpsc)
      → u.release_guard.armed ≡ true
      → let used = ensure_open early (unopened u) h in
        (drop_stream_state used.1 used.2).active_pairs ≡ decrement h.active_pairs
  unfolding ensure_open open_unopened after_realize taken drop_stream_state drop_release_guard
      disarm release_pair finish_unopened_stream
  drop-ensure_open early u h armed = from_pending u.pending_txs
    where
      released :
          (h1 : MuxHandle mpsc)
          → (drop_release_guard u.release_guard h1).active_pairs ≡ decrement h1.active_pairs
      released h1 = rw (armed, drop_release_guard) refl

      from_pending :
          (p : Option (ℕ × ℕ))
          → (drop_stream_state
              (open_unopened early u p h).1
              (open_unopened early u p h).2).active_pairs
            ≡ decrement h.active_pairs
      from_pending none = released h
      from_pending (some (data_tx, error_tx)) =
          from_result (realize_stream_pair early u.error_headers u.data_headers data_tx error_tx h)
            (realize-pairs early u.error_headers u.data_headers data_tx error_tx h)
        where
          from_result :
              (r : Outcome mpsc)
              → r.1.active_pairs ≡ h.active_pairs
              → (drop_stream_state (after_realize u r).1 (after_realize u r).2).active_pairs
                ≡ decrement h.active_pairs
          from_result (err x, h1) k = released h1 ∙ ap decrement k
          from_result (ok parts, h1) k =
              drop_stream_guard-pairs (finish_unopened_stream u parts).guard h1 ∙ ap decrement k
