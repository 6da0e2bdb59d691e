-- ===== src/Mux/Guard/Dropped.antt =====
-- crates/spdy-mux/src/stream.rs: the drop of a stream, as the writer and the workers see it.
use kube_portforward.Prelude.{
  ℕ, ◌-◌, ◌^◌, ◌<◌, ◌≡◌, refl, ap, sym, ◌∙◌, inl, inr, List, [], ◌∷◌, ◌++◌, true, Bool-cases,
  if◌then◌else◌, append-nil, append_assoc, arith,
}
use kube_portforward.Error.{ok}
use kube_portforward.Mux.{rst_status_cancel}
use kube_portforward.Mux.Channel.{Mpsc, MpscLaws}
use kube_portforward.Mux.Commands.{MuxCommand, StreamRegistration}
use kube_portforward.Mux.Reader.{worker_of}
use kube_portforward.Mux.Handle.{MuxHandle, open_stream_pair, release_pair, decrement}
use kube_portforward.Mux.Handle.Capacity.{open_stream_pair_step}
use kube_portforward.Mux.Guard.{
  StreamGuard, PairReleaseGuard, disarm, drop_release_guard, send_permit_close, drop_control_permit,
  send_reset, drop_stream_guard,
}
use kube_portforward.Mux.Writer.Closes.{notices, notices-cons}

module _ {mpsc : Mpsc} (laws : MpscLaws mpsc) where
  abbrev pub closings : MuxHandle mpsc → ℕ → List StreamRegistration
  closings h worker = mpsc.queue StreamRegistration (h.close_reg_txs worker)

  abbrev pub controls : MuxHandle mpsc → List MuxCommand
  controls h = mpsc.queue MuxCommand h.control_tx

  closings-send_permit_close :
      (id : ℕ) (h : MuxHandle mpsc) (worker : ℕ)
      → closings (send_permit_close id h) worker ≡ closings h worker ++ notices worker (id ∷ [])
  unfolding send_permit_close notices
  closings-send_permit_close id h worker = ground (
    arith,
    append-nil (closings h worker),
    laws.queue-permit_send StreamRegistration (h.close_reg_txs (worker_of id))
        (StreamRegistration.closes id),
  )

  -- The handle between the control messages and the close notifications.
  abbrev controlled : StreamGuard → MuxHandle mpsc → MuxHandle mpsc
  controlled g h =
      if g.graceful_shutdown
      then drop_control_permit (drop_control_permit h)
      else send_reset g (drop_control_permit h)

  controlled_rest :
      (g : StreamGuard) (h : MuxHandle mpsc)
      → ((controlled g h).close_reg_txs ≡ h.close_reg_txs)
        × ((controlled g h).active_pairs ≡ h.active_pairs)
  unfolding drop_control_permit send_reset
  controlled_rest g h = elim (Bool-cases g.graceful_shutdown) [
    | inl e ↦ rw (e) (refl, refl)
    | inr e ↦ rw (e) (refl, refl)
  ]

  controls-controlled :
      (g : StreamGuard) (h : MuxHandle mpsc)
      → controls (controlled g h)
        ≡ controls h
          ++ (if g.graceful_shutdown
              then []
              else MuxCommand.close_stream g.data_id rst_status_cancel ∷ [])
  unfolding drop_control_permit send_reset
  controls-controlled g h = elim (Bool-cases g.graceful_shutdown) [
    | inl e ↦ rw (e) (
        laws.queue-permit_drop MuxCommand (mpsc.permit_drop MuxCommand h.control_tx)
        ∙ laws.queue-permit_drop MuxCommand h.control_tx
        ∙ sym (append-nil (controls h)))
    | inr e ↦ rw (e) (
        laws.queue-permit_send MuxCommand (mpsc.permit_drop MuxCommand h.control_tx)
          (MuxCommand.close_stream g.data_id rst_status_cancel)
        ∙ ap (λ q. q ++ MuxCommand.close_stream g.data_id rst_status_cancel ∷ [])
            (laws.queue-permit_drop MuxCommand h.control_tx))
  ]

  -- Dropping an opened stream always tells the workers of both its streams to forget them, the error
  -- stream first, behind what their queues held. The peer gets one reset, for the data stream, and
  -- gets none if the stream was shut down gracefully; the error stream is never reset. The number of
  -- open pairs is one less, if there was one.
  pub drop_stream_guard_notifies :
      (g : StreamGuard) (h : MuxHandle mpsc)
      → 0 < h.active_pairs
      → h.active_pairs < 2 ^ 64
      → ((worker : ℕ)
          → closings (drop_stream_guard g h) worker
            ≡ closings h worker ++ notices worker (g.error_id ∷ g.data_id ∷ []))
        × (controls (drop_stream_guard g h)
            ≡ controls h
              ++ (if g.graceful_shutdown
                  then []
                  else MuxCommand.close_stream g.data_id rst_status_cancel ∷ []))
        × ((drop_stream_guard g h).active_pairs ≡ h.active_pairs - 1)
  unfolding drop_stream_guard send_permit_close release_pair
  drop_stream_guard_notifies g h some_open small = (
    λ worker.
        closings-send_permit_close g.data_id (send_permit_close g.error_id (controlled g h)) worker
        ∙ ap (λ q. q ++ notices worker (g.data_id ∷ []))
            (closings-send_permit_close g.error_id (controlled g h) worker
              ∙ ap
                  (λ f.
                    mpsc.queue StreamRegistration (f worker) ++ notices worker (g.error_id ∷ []))
                  (controlled_rest g h).0)
        ∙ append_assoc (closings h worker) (notices worker (g.error_id ∷ []))
            (notices worker (g.data_id ∷ []))
        ∙ ap (λ q. closings h worker ++ q) (sym (notices-cons worker g.error_id (g.data_id ∷ []))),
    controls-controlled g h,
    ap decrement (controlled_rest g h).1 ∙ omega arith,
  )

-- A stream that is dropped before it was opened gives back just what opening it had reserved: after
-- a reservation and the drop of its guard the handle is as before. Once the guard is disarmed, as
-- it is when the pair goes over to the guard of the opened stream, its drop does nothing.
drop_release_guard_undoes :
    {mpsc : Mpsc} (h : MuxHandle mpsc) (max_frame_size : ℕ) (h' : MuxHandle mpsc)
    (g : PairReleaseGuard)
    → h.active_pairs < 2 ^ 32
    → open_stream_pair h ≡ (ok max_frame_size, h')
    → (drop_release_guard (record { armed = true }) h' ≡ h)
      × (drop_release_guard (disarm g) h' ≡ h')
unfolding drop_release_guard disarm release_pair
drop_release_guard_undoes h max_frame_size h' g small e = (
  ap release_pair (open_stream_pair_step h max_frame_size h' e)
      ∙ ap (λ n. record h { active_pairs = n }) (omega arith),
  refl,
)
