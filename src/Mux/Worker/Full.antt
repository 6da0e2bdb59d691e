-- ===== src/Mux/Worker/Full.antt =====
-- crates/spdy-mux/src/mux/worker.rs: a DATA frame that finds the stream's channel full.
use kube_portforward.Prelude.{
  ℕ, ◌≡◌, refl, ap, ◌∙◌, inl, inr, ◌∷◌, false, some, Bool-cases, ◌==◌, ==_iff,
}
use kube_portforward.Prelude.Maps.{lookup, update}
use kube_portforward.Wire.{Bytes}
use kube_portforward.Frame.{data_frame}
use kube_portforward.Mux.Channel.{Mpsc, MpscLaws, full}
use kube_portforward.Mux.Worker.{
  Worker, Shared, StreamState, deliver, on_payload, on_fin, after_payload, on_data,
  dispatch_frame_in_worker,
}

update_same : {V : Type 0} (f : ℕ → V) (k : ℕ) (v : V) → v ≡ f k → update f k v ≡ f
update_same f k v e i j = at j i
  where
    at : (j : ℕ) → update f k v j ≡ f j
    at j = elim (Bool-cases (k == j)) [
      | inl h ↦ rw (h) (e ∙ ap f ((==_iff k j).0 h))
      | inr h ↦ rw (h) refl
    ]

module _ {mpsc : Mpsc} (laws : MpscLaws mpsc) where
  deliver_full :
      (initial_window id : ℕ) (payload : Bytes) (st : StreamState) (ch : ℕ) (w : Worker)
      (s : Shared mpsc)
      → (mpsc.try_send Bytes (s.data_channels ch) payload).0 ≡ full
      → deliver initial_window id payload st ch (w, s) ≡ ((w, s), false)
  unfolding deliver
  deliver_full initial_window id payload st ch w s r =
      rw (r, deliver)
        (ap (λ cs. ((w, record s { data_channels = cs }), false))
          (update_same s.data_channels ch (mpsc.try_send Bytes (s.data_channels ch) payload).1
            (laws.queue-try_send_refused Bytes (s.data_channels ch) payload (λ k. cc (r, k)))))

  on_payload_full :
      (initial_window id : ℕ) (payload : Bytes) (st : StreamState) (ch : ℕ) (w : Worker)
      (s : Shared mpsc)
      → lookup id w.streams ≡ some st
      → st.data_tx ≡ some ch
      → (mpsc.try_send Bytes (s.data_channels ch) payload).0 ≡ full
      → on_payload initial_window id payload (w, s) ≡ ((w, s), false)
  unfolding on_payload
  on_payload_full initial_window id payload st ch w s e d r =
      rw (e, on_payload) (rw (d) (deliver_full initial_window id payload st ch w s r))

  -- If a DATA frame without FIN, and with a payload, comes for a stream whose channel is full, then
  -- the worker's state and all that it shares are as before: the payload is in no channel and is not
  -- tried again, and neither the reader of the stream nor the peer is told.
  pub data_frame_lost :
      (initial_window id b : ℕ) (bs : Bytes) (st : StreamState) (ch : ℕ) (w : Worker)
      (s : Shared mpsc)
      → lookup id w.streams ≡ some st
      → st.data_tx ≡ some ch
      → (mpsc.try_send Bytes (s.data_channels ch) (b ∷ bs)).0 ≡ full
      → dispatch_frame_in_worker initial_window (data_frame id (b ∷ bs) false) (w, s) ≡ (w, s)
  unfolding dispatch_frame_in_worker on_data after_payload on_fin
  data_frame_lost initial_window id b bs st ch w s e d r =
      ap (after_payload id false) (on_payload_full initial_window id (b ∷ bs) st ch w s e d r)
