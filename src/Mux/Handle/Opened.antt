-- ===== src/Mux/Handle/Opened.antt =====
-- crates/spdy-mux/src/mux/handle.rs: the outcomes of `realize_stream_pair`.
use kube_portforward.Prelude.{
  ℕ, ◌+◌, ◌%◌, ◌^◌, ◌≤◌, ◌<◌, ◌≡◌, ◌⊎◌, inl, inr, refl, ap, sym, ◌∙◌, List, [], ◌∷◌, ◌++◌, Bool,
  false, Bool-cases, ◌||◌, ltb, ◌==◌, arith,
}
use kube_portforward.Prelude.Int.{pos}
use kube_portforward.Error.{ok, err, mux_closed}
use kube_portforward.Frame.{Headers}
use kube_portforward.Mux.{max_stream_id}
use kube_portforward.Mux.Channel.{Mpsc, MpscLaws}
use kube_portforward.Mux.Commands.{MuxCommand, StreamRegistration}
use kube_portforward.Mux.Reader.{worker_of}
use kube_portforward.Mux.Handle.{
  MuxHandle, OpenedStreamParts, register, register_pair, allocate_pair, realize_stream_pair,
}
use kube_portforward.Mux.Handle.Realized.{
  next_of, enqueued, windowed, reserve_permits-Permitted, enqueue_through, register_data_through,
  register_pair_through, queue-register, register_pair-seq,
}

module _ {mpsc : Mpsc} (laws : MpscLaws mpsc) where
  abbrev registrations : MuxHandle mpsc → ℕ → List StreamRegistration
  registrations h worker = mpsc.queue StreamRegistration (h.reg_txs worker)

  -- What a pair that was registered, and announced to the writer, has left behind.
  abbrev pub Announced :
      ℕ
      → ℕ
      → Headers
      → Headers
      → ℕ
      → ℕ
      → MuxHandle mpsc
      → OpenedStreamParts
      → MuxHandle mpsc
      → Type 0
  Announced error_id data_id eh dh data_tx error_tx h parts h' =
      (parts ≡ record { data_id = data_id; error_id = error_id; send_window = h.fresh + 2 })
      × (mpsc.queue MuxCommand h'.cmd_tx
          ≡ mpsc.queue MuxCommand h.cmd_tx
            ++ MuxCommand.open_stream_pair error_id data_id eh dh ∷ [])
      × (h'.windows (h.fresh + 2) ≡ pos h.peer_initial_window)
      × (registrations h' (worker_of error_id)
          ≡ registrations h (worker_of error_id)
            ++ StreamRegistration.opens error_id error_tx (h.fresh + 1) h.fresh ∷ [])
      × (registrations h' (worker_of data_id)
          ≡ registrations h (worker_of data_id)
            ++ StreamRegistration.opens data_id data_tx (h.fresh + 3) (h.fresh + 2) ∷ [])

  register_pair-Announced :
      (error_id data_id : ℕ) (eh dh : Headers) (data_tx error_tx : ℕ) (h : MuxHandle mpsc)
      (parts : OpenedStreamParts) (h' : MuxHandle mpsc)
      → (worker_of error_id == worker_of data_id) ≡ false
      → register_pair error_id data_id eh dh data_tx error_tx h ≡ (ok parts, h')
      → Announced error_id data_id eh dh data_tx error_tx h parts h'
  register_pair-Announced error_id data_id eh dh data_tx error_tx h parts h' apart e =
      let (sent1, step1) =
        register_pair_through laws error_id data_id eh dh data_tx error_tx h parts
          (ap (λ o. o.0) e) in
      let h1 =
        (register error_id data_id error_id error_tx (h.fresh + 1) h.fresh
          (windowed laws error_id data_id h)).1 in
      let (sent2, step2) =
        register_data_through laws error_id data_id eh dh data_tx (h.fresh + 3) (h.fresh + 2) h1
          parts (ap (λ o. o.0) (sym step1 ∙ e)) in
      let h2 = (register error_id data_id data_id data_tx (h.fresh + 3) (h.fresh + 2) h1).1 in
      let (sent3, step3) =
        enqueue_through laws error_id data_id eh dh (h.fresh + 2) h2 parts
          (ap (λ o. o.0) (sym (step1 ∙ step2) ∙ e)) in
      let steps = step1 ∙ step2 ∙ step3 in
      let (ids, commands, regs, windows) =
        reserve_permits-Permitted laws error_id data_id (h.fresh + 2)
          (enqueued laws error_id data_id eh dh h2) parts (ap (λ o. o.0) (sym steps ∙ e)) in
      let same = ap (λ o. o.1) (sym e ∙ steps) in
      (
        ids,
        ap (λ x. mpsc.queue MuxCommand x.cmd_tx) same
            ∙ ap (mpsc.queue MuxCommand) commands
            ∙ laws.queue-try_send MuxCommand h2.cmd_tx
                (MuxCommand.open_stream_pair error_id data_id eh dh) sent3,
        ap (λ x. x.windows (h.fresh + 2)) same ∙ ap (λ f. f (h.fresh + 2)) windows ∙ ground arith,
        ap (λ x. registrations x (worker_of error_id)) same
            ∙ ap (λ f. mpsc.queue StreamRegistration (f (worker_of error_id))) regs
            ∙ ground (
              arith,
              queue-register laws error_id data_id data_id data_tx (h.fresh + 3) (h.fresh + 2) h1
                  sent2 (worker_of error_id),
              queue-register laws error_id data_id error_id error_tx (h.fresh + 1) h.fresh
                  (windowed laws error_id data_id h) sent1 (worker_of error_id),
            ),
        ap (λ x. registrations x (worker_of data_id)) same
            ∙ ap (λ f. mpsc.queue StreamRegistration (f (worker_of data_id))) regs
            ∙ ground (
              arith,
              queue-register laws error_id data_id data_id data_tx (h.fresh + 3) (h.fresh + 2) h1
                  sent2 (worker_of data_id),
              queue-register laws error_id data_id error_id error_tx (h.fresh + 1) h.fresh
                  (windowed laws error_id data_id h) sent1 (worker_of data_id),
            ),
      )

  -- A pair that was realized has the next two stream numbers, `n` and `n + 2`, within the limit of
  -- 31 bits, and the next pair begins at `n + 4`. Each stream is registered with its worker, behind
  -- what the worker's queue held, the data stream with a fresh window of the peer's initial size, and
  -- the writer has been told to open the pair, behind what it was told before.
  pub realize-Announced :
      (early : Bool) (eh dh : Headers) (data_tx error_tx : ℕ) (h : MuxHandle mpsc)
      (parts : OpenedStreamParts) (h' : MuxHandle mpsc)
      → next_of h < 2 ^ 32
      → realize_stream_pair early eh dh data_tx error_tx h ≡ (ok parts, h')
      → (next_of h + 2 ≤ max_stream_id)
        × (next_of h' ≡ next_of h + 4)
        × Announced (next_of h) (next_of h + 2) eh dh data_tx error_tx h parts h'
  unfolding realize_stream_pair allocate_pair
  realize-Announced early eh dh data_tx error_tx h parts h' small e =
      elim (Bool-cases (early || (h.closed || h.goaway_received))) [
        | inl c ↦ absurd (ground arith)
        | inr c ↦
            elim (Bool-cases
              (ltb max_stream_id ((next_of h + 2) % 2 ^ 32) || ltb max_stream_id (next_of h))) [
                | inl o ↦ absurd (ground arith)
                | inr o ↦ allocated (ground arith) (
                    ap (λ n. register_pair (next_of h) n eh dh data_tx error_tx advanced)
                      (sym (fits (ground arith)))
                    ∙ ground arith)
              ]
      ]
    where
      -- The allocated number does not wrap around, or else it is refused.
      fits : next_of h + 2 ≤ max_stream_id → (next_of h + 2) % 2 ^ 32 ≡ next_of h + 2
      fits bound = omega arith

      advanced : MuxHandle mpsc
      advanced = record h {
        open_seq = record { next_stream_id = ((next_of h + 2) % 2 ^ 32 + 2) % 2 ^ 32 };
      }

      allocated :
          next_of h + 2 ≤ max_stream_id
          → register_pair (next_of h) (next_of h + 2) eh dh data_tx error_tx advanced
            ≡ (ok parts, h')
          → (next_of h + 2 ≤ max_stream_id)
            × (next_of h' ≡ next_of h + 4)
            × Announced (next_of h) (next_of h + 2) eh dh data_tx error_tx h parts h'
      allocated bound k = (
        bound,
        ap (λ o. next_of o.1) (sym k)
            ∙ register_pair-seq (next_of h) (next_of h + 2) eh dh data_tx error_tx advanced
            ∙ omega arith,
        register_pair-Announced (next_of h) (next_of h + 2) eh dh data_tx error_tx advanced parts h'
            (ground arith) k,
      )

  -- However an attempt to realize a pair ends, stream numbers are not used twice: either the next
  -- number is unchanged, and then the attempt has failed because the connection is closed or the
  -- numbers are used up, or it has moved on by four.
  realize_seq :
      (early : Bool) (eh dh : Headers) (data_tx error_tx : ℕ) (h : MuxHandle mpsc)
      → next_of h < 2 ^ 32
      → let (r, h') = realize_stream_pair early eh dh data_tx error_tx h in
        ((next_of h' ≡ next_of h) × (r ≡ err mux_closed))
        ⊎ ((next_of h + 2 ≤ max_stream_id) × (next_of h' ≡ next_of h + 4))
  unfolding realize_stream_pair allocate_pair
  realize_seq early eh dh data_tx error_tx h small =
      elim (Bool-cases (early || (h.closed || h.goaway_received))) [
        | inl c ↦ inl (rw (c, realize_stream_pair) (refl, refl))
        | inr c ↦
            elim (Bool-cases
              (ltb max_stream_id ((next_of h + 2) % 2 ^ 32) || ltb max_stream_id (next_of h))) [
                | inl o ↦ inl (rw (c, o, realize_stream_pair, allocate_pair) (refl, refl))
                | inr o ↦
                    inr (ground arith, rw (c, o, realize_stream_pair, allocate_pair) (advances o))
              ]
      ]
    where
      advanced : MuxHandle mpsc
      advanced = record h {
        open_seq = record { next_stream_id = ((next_of h + 2) % 2 ^ 32 + 2) % 2 ^ 32 };
      }

      advances :
          (ltb max_stream_id ((next_of h + 2) % 2 ^ 32) || ltb max_stream_id (next_of h)) ≡ false
          → next_of
              (register_pair
                (next_of h)
                ((next_of h + 2) % 2 ^ 32)
                eh
                dh
                data_tx
                error_tx
                advanced).1
            ≡ next_of h + 4
      advances o =
          register_pair-seq (next_of h) ((next_of h + 2) % 2 ^ 32) eh dh data_tx error_tx advanced
          ∙ ground arith
