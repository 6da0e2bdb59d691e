-- ===== src/Mux/Handle/Realized.antt =====
-- crates/spdy-mux/src/mux/handle.rs: the steps of `realize_stream_pair` on the way to a success.
use kube_portforward.Prelude.{
  ℕ, ◌+◌, ◌≡◌, inl, inr, refl, [], ◌∷◌, ◌++◌, ◌==◌, if◌then◌else◌, arith,
}
use kube_portforward.Prelude.Int.{pos}
use kube_portforward.Prelude.Maps.{update}
use kube_portforward.Error.{ok}
use kube_portforward.Frame.{Headers}
use kube_portforward.Mux.Channel.{Mpsc, MpscLaws, SendResult, sent, SendResult-cases}
use kube_portforward.Mux.Commands.{MuxCommand, StreamRegistration}
use kube_portforward.Mux.Reader.{worker_of}
use kube_portforward.Mux.Handle.{
  MuxHandle, OpenedStreamParts, Outcome, send_closed, reserve_permits, enqueue_open, register,
  register_data, register_pair,
}

abbrev pub next_of : {mpsc : Mpsc} → MuxHandle mpsc → ℕ
next_of h = h.open_seq.next_stream_id

module _ {mpsc : Mpsc} (error_id data_id : ℕ) where
  -- No step behind the allocation touches the sequencer.
  reserve_permits-seq :
      (window : ℕ) (h : MuxHandle mpsc)
      → next_of (reserve_permits error_id data_id window h).1 ≡ next_of h
  unfolding reserve_permits send_closed
  reserve_permits-seq window h = ground arith

  enqueue_open-seq :
      (eh dh : Headers) (window : ℕ) (h : MuxHandle mpsc)
      → next_of (enqueue_open error_id data_id eh dh window h).1 ≡ next_of h
  unfolding enqueue_open send_closed
  enqueue_open-seq eh dh window h = grind (arith, reserve_permits-seq)

  register_data-seq :
      (eh dh : Headers) (data_tx reply_tx window : ℕ) (h : MuxHandle mpsc)
      → next_of (register_data error_id data_id eh dh data_tx reply_tx window h).1 ≡ next_of h
  unfolding register_data send_closed
  register_data-seq eh dh data_tx reply_tx window h = grind (arith, enqueue_open-seq)

  pub register_pair-seq :
      (eh dh : Headers) (data_tx error_tx : ℕ) (h : MuxHandle mpsc)
      → next_of (register_pair error_id data_id eh dh data_tx error_tx h).1 ≡ next_of h
  unfolding register_pair
  register_pair-seq eh dh data_tx error_tx h = grind (arith, register_data-seq)

-- What the steps of a success have done, from the last to the first.
module _ {mpsc : Mpsc} (laws : MpscLaws mpsc) (error_id data_id : ℕ) where
  abbrev pub Permitted : ℕ → MuxHandle mpsc → Outcome mpsc → OpenedStreamParts → Type 0
  Permitted window h (r, h') parts =
      (parts ≡ record { data_id = data_id; error_id = error_id; send_window = window })
      × (h'.cmd_tx ≡ h.cmd_tx)
      × (h'.reg_txs ≡ h.reg_txs)
      × (h'.windows ≡ h.windows)

  pub reserve_permits-Permitted :
      (window : ℕ) (h : MuxHandle mpsc) (parts : OpenedStreamParts)
      → (reserve_permits error_id data_id window h).0 ≡ ok parts
      → Permitted window h (reserve_permits error_id data_id window h) parts
  unfolding reserve_permits
  reserve_permits-Permitted window h parts e =
      (ground arith, ground arith, ground arith, ground arith)

  abbrev pub command_try : Headers → Headers → MuxHandle mpsc → SendResult × mpsc.Chan MuxCommand
  command_try eh dh h =
      mpsc.try_send MuxCommand h.cmd_tx (MuxCommand.open_stream_pair error_id data_id eh dh)

  abbrev pub enqueued : Headers → Headers → MuxHandle mpsc → MuxHandle mpsc
  enqueued eh dh h = record h { cmd_tx = (command_try eh dh h).1 }

  pub enqueue_through :
      (eh dh : Headers) (window : ℕ) (h : MuxHandle mpsc) (parts : OpenedStreamParts)
      → (enqueue_open error_id data_id eh dh window h).0 ≡ ok parts
      → ((command_try eh dh h).0 ≡ sent)
        × (enqueue_open error_id data_id eh dh window h
            ≡ reserve_permits error_id data_id window (enqueued eh dh h))
  unfolding enqueue_open
  enqueue_through eh dh window h parts e = elim (SendResult-cases (command_try eh dh h).0) [
    | inl r ↦ (r, rw (r, enqueue_open) refl)
    | inr (inl r) ↦ absurd (ground arith)
    | inr (inr r) ↦ absurd (ground arith)
  ]

  pub register_data_through :
      (eh dh : Headers) (data_tx reply_tx window : ℕ) (h : MuxHandle mpsc)
      (parts : OpenedStreamParts)
      → (register_data error_id data_id eh dh data_tx reply_tx window h).0 ≡ ok parts
      → ((register error_id data_id data_id data_tx reply_tx window h).0 ≡ sent)
        × (register_data error_id data_id eh dh data_tx reply_tx window h
            ≡ enqueue_open error_id data_id eh dh window
                (register error_id data_id data_id data_tx reply_tx window h).1)
  unfolding register_data
  register_data_through eh dh data_tx reply_tx window h parts e =
      elim (SendResult-cases (register error_id data_id data_id data_tx reply_tx window h).0) [
        | inl r ↦ (r, rw (r, register_data) refl)
        | inr (inl r) ↦ absurd (ground arith)
        | inr (inr r) ↦ absurd (ground arith)
      ]

  -- The handle with the windows of the pair.
  abbrev pub windowed : MuxHandle mpsc → MuxHandle mpsc
  windowed h = record h {
    windows =
        update (update h.windows h.fresh (pos h.peer_initial_window)) (h.fresh + 2)
          (pos h.peer_initial_window);
    fresh = h.fresh + 4;
  }

  pub register_pair_through :
      (eh dh : Headers) (data_tx error_tx : ℕ) (h : MuxHandle mpsc) (parts : OpenedStreamParts)
      → let first =
          register error_id data_id error_id error_tx (h.fresh + 1) h.fresh (windowed h) in
        (register_pair error_id data_id eh dh data_tx error_tx h).0 ≡ ok parts
        → (first.0 ≡ sent)
          × (register_pair error_id data_id eh dh data_tx error_tx h
              ≡ register_data error_id data_id eh dh data_tx (h.fresh + 3) (h.fresh + 2) first.1)
  unfolding register_pair
  register_pair_through eh dh data_tx error_tx h parts e =
      elim (SendResult-cases
        (register error_id data_id error_id error_tx (h.fresh + 1) h.fresh (windowed h)).0) [
          | inl r ↦ (r, rw (r, register_pair) refl)
          | inr (inl r) ↦ absurd (ground arith)
          | inr (inr r) ↦ absurd (ground arith)
        ]

  -- A registration that was sent is behind what its worker's queue held; other queues are the same.
  pub queue-register :
      (id tx reply window : ℕ) (h : MuxHandle mpsc)
      → (register error_id data_id id tx reply window h).0 ≡ sent
      → (worker : ℕ)
      → mpsc.queue StreamRegistration
          ((register error_id data_id id tx reply window h).1.reg_txs worker)
        ≡ (if worker_of id == worker
            then mpsc.queue StreamRegistration (h.reg_txs worker)
              ++ StreamRegistration.opens id tx reply window ∷ []
            else mpsc.queue StreamRegistration (h.reg_txs worker))
  queue-register id tx reply window h r worker = ground (
    arith,
    laws.queue-try_send StreamRegistration (h.reg_txs (worker_of id))
        (StreamRegistration.opens id tx reply window) r,
  )
