-- ===== src/Mux/Worker/Flow.antt =====
-- crates/spdy-mux/src/mux/worker.rs: the receive window of a stream.
use kube_portforward.Prelude.{
  ℕ, ◌+◌, ◌%◌, ◌^◌, ◌<◌, ◌≡◌, ◌≢◌, inl, inr, refl, ap, ◌∙◌, List, [], ◌∷◌, ◌++◌, Bool, true, false,
  Option, none, some, length, ◌==◌, if◌then◌else◌, arith, ==_iff,
}
use kube_portforward.Prelude.Maps.{lookup, insert, update}
use kube_portforward.Wire.{Bytes}
use kube_portforward.Frame.{Frame}
use kube_portforward.Mux.Channel.{Mpsc, MpscLaws, sent, full, disconnected, SendResult-cases}
use kube_portforward.Mux.Commands.{MuxCommand, encode_window_update}
use kube_portforward.Mux.Worker.{
  Shared, State, StreamState, dispatch_frame_in_worker, count_delivered, deliver, on_payload,
  after_payload, on_data, on_fin, half_close,
}

-- The sum of the deltas that wait to be sent to the peer for a stream.
unfoldable pub updates_for : ℕ → List MuxCommand → ℕ
updates_for id [] = 0
updates_for id (encode_window_update j delta ∷ cs) =
    (if j == id then delta else 0) + updates_for id cs
updates_for id (_ ∷ cs) = updates_for id cs

pub updates_for-append :
    (id : ℕ) (cs : List MuxCommand) (c : MuxCommand)
    → updates_for id (cs ++ c ∷ []) ≡ updates_for id cs + updates_for id (c ∷ [])
unfolding updates_for
updates_for-append id [] c = omega arith
updates_for-append id (MuxCommand.encode_window_update j d ∷ cs) c =
    omega (arith, updates_for-append id cs c)
updates_for-append id (MuxCommand.open_stream_pair a b e f ∷ cs) c = updates_for-append id cs c
updates_for-append id (MuxCommand.send_data a b e ∷ cs) c = updates_for-append id cs c
updates_for-append id (MuxCommand.send_raw_frame a ∷ cs) c = updates_for-append id cs c
updates_for-append id (MuxCommand.close_stream a b ∷ cs) c = updates_for-append id cs c
updates_for-append id (MuxCommand.encode_ping a ∷ cs) c = updates_for-append id cs c
updates_for-append id (MuxCommand.send_ws_pong a ∷ cs) c = updates_for-append id cs c
updates_for-append id (MuxCommand.go_away a ∷ cs) c = updates_for-append id cs c

pub one_update : (id delta : ℕ) → updates_for id (encode_window_update id delta ∷ []) ≡ delta
unfolding updates_for
one_update id delta = ground arith

abbrev consumed_of : Option StreamState → ℕ
consumed_of none = 0
consumed_of (some st) = st.consumed_since_update

module _ {mpsc : Mpsc} where
  -- What the peer is owed for a stream: bytes that are counted, and updates on their way.
  unfoldable pub owed : ℕ → State mpsc → ℕ
  owed id ws =
      consumed_of (lookup id ws.0.streams)
      + updates_for id (mpsc.queue MuxCommand ws.1.window_updates)

  -- The payloads in a data channel.
  unfoldable pub waiting : ℕ → State mpsc → List Bytes
  waiting ch ws = mpsc.queue Bytes (ws.1.data_channels ch)

  -- Every data channel but this one is as it was.
  abbrev pub SameOthers : ℕ → State mpsc → State mpsc → Type 0
  SameOthers ch ws after =
      (other : ℕ) → other ≢ ch → after.1.data_channels other ≡ ws.1.data_channels other

module _ {mpsc : Mpsc} (laws : MpscLaws mpsc) where
  owed-count_delivered :
      (initial_window id len : ℕ) (st : StreamState) (ws : State mpsc)
      → st.consumed_since_update + len < 2 ^ 32
      → owed id (count_delivered initial_window id len st ws)
        ≡ st.consumed_since_update
          + len
          + updates_for id (mpsc.queue MuxCommand ws.1.window_updates)
  unfolding owed count_delivered insert lookup
  owed-count_delivered initial_window id len st (w, s) h =
      let update' = encode_window_update id ((st.consumed_since_update + len) % 2 ^ 32) in
      let q = mpsc.queue MuxCommand s.window_updates in
      ground (
        arith,
        ==_iff id id,
        updates_for-append id q update',
        one_update id ((st.consumed_since_update + len) % 2 ^ 32),
        laws.queue-try_send MuxCommand s.window_updates update',
        laws.queue-try_send_refused MuxCommand s.window_updates update',
      )

  count_delivered-channels :
      (initial_window id len : ℕ) (st : StreamState) (ws : State mpsc)
      → (count_delivered initial_window id len st ws).1.data_channels ≡ ws.1.data_channels
  unfolding count_delivered
  count_delivered-channels initial_window id len st (w, s) = ground arith

  owed-on_fin : (id : ℕ) (fin : Bool) (ws : State mpsc) → owed id (on_fin id fin ws) ≡ owed id ws
  unfolding owed on_fin half_close insert lookup
  owed-on_fin id false ws = refl
  owed-on_fin id true (w, s) = ground (arith, ==_iff id id)

  on_fin_channels :
      (id : ℕ) (fin : Bool) (ws : State mpsc)
      → (on_fin id fin ws).1.data_channels ≡ ws.1.data_channels
  unfolding on_fin half_close
  on_fin_channels id false ws = refl
  on_fin_channels id true (w, s) = ground arith

  waiting-on_fin :
      (id ch : ℕ) (fin : Bool) (ws : State mpsc) → waiting ch (on_fin id fin ws) ≡ waiting ch ws
  unfolding waiting on_fin half_close
  waiting-on_fin id ch false ws = refl
  waiting-on_fin id ch true (w, s) = ground arith

  -- What the channel answered, and what became of the payload.
  abbrev Balanced : ℕ → ℕ → Bytes → State mpsc → State mpsc → Type 0
  Balanced id ch payload ws after =
      let answer = (mpsc.try_send Bytes (ws.1.data_channels ch) payload).0 in
      (answer ≡ sent
        → (waiting ch after ≡ waiting ch ws ++ payload ∷ [])
          × (owed id after ≡ owed id ws + length payload))
      × (answer ≡ full → (waiting ch after ≡ waiting ch ws) × (owed id after ≡ owed id ws))
      × SameOthers ch ws after

  deliver-Balanced :
      (initial_window id : ℕ) (payload : Bytes) (st : StreamState) (ch : ℕ) (ws : State mpsc)
      → lookup id ws.0.streams ≡ some st
      → st.consumed_since_update + length payload < 2 ^ 32
      → (mpsc.try_send Bytes (ws.1.data_channels ch) payload).0 ≢ disconnected
      → Balanced id ch payload ws (deliver initial_window id payload st ch ws).0
        × ((deliver initial_window id payload st ch ws).1 ≡ false)
  unfolding deliver
  deliver-Balanced initial_window id payload st ch (w, s) e h n =
      elim (SendResult-cases (mpsc.try_send Bytes (s.data_channels ch) payload).0) [
        | inl ok_sent ↦
            rw (ok_sent, deliver)
              (
                (
                  λ q. (queued ok_sent, counted),
                  λ q. absurd (cc),
                  λ other ne. others_counted other ne,
                ),
                refl,
              )
        | inr (inl is_full) ↦
            rw (is_full, deliver)
              (
                (
                  λ q. absurd (cc),
                  λ q. (kept is_full, unfold owed in refl),
                  λ other ne. others other ne,
                ),
                refl,
              )
        | inr (inr gone) ↦ absurd (n gone)
      ]
    where
      channel : mpsc.Chan Bytes
      channel = (mpsc.try_send Bytes (s.data_channels ch) payload).1

      s' : Shared mpsc
      s' = record s { data_channels = update s.data_channels ch channel }

      queued :
          (mpsc.try_send Bytes (s.data_channels ch) payload).0 ≡ sent
          → waiting ch (count_delivered initial_window id (length payload) st (w, s'))
            ≡ waiting ch (w, s) ++ payload ∷ []
      queued ok_sent =
          unfold waiting in
          ap (λ (channels : ℕ → mpsc.Chan Bytes). mpsc.queue Bytes (channels ch))
            (count_delivered-channels initial_window id (length payload) st (w, s'))
          ∙ ground
              (arith, ==_iff ch ch, laws.queue-try_send Bytes (s.data_channels ch) payload ok_sent)

      others : SameOthers ch (w, s) (w, s')
      others other ne = ground (arith, ==_iff ch other)

      others_counted :
          SameOthers ch (w, s) (count_delivered initial_window id (length payload) st (w, s'))
      others_counted other ne =
          rw (count_delivered-channels initial_window id (length payload) st (w, s'))
            (others other ne)

      counted :
          owed id (count_delivered initial_window id (length payload) st (w, s'))
          ≡ owed id (w, s) + length payload
      counted =
          owed-count_delivered initial_window id (length payload) st (w, s') h
          ∙ (unfold owed in rw e (omega arith))

      kept :
          (mpsc.try_send Bytes (s.data_channels ch) payload).0 ≡ full
          → waiting ch (w, s') ≡ waiting ch (w, s)
      kept is_full =
          unfold waiting in
          ground
            (arith, ==_iff ch ch, laws.queue-try_send_refused Bytes (s.data_channels ch) payload)

  after_payload-kept :
      (id : ℕ) (fin : Bool) (r : State mpsc × Bool)
      → r.1 ≡ false
      → after_payload id fin r ≡ on_fin id fin r.0
  unfolding after_payload
  after_payload-kept id fin (ws, false) h = refl
  after_payload-kept id fin (ws, true) h = cc

  on_data-deliver :
      (initial_window id b : ℕ) (bs : Bytes) (fin : Bool) (st : StreamState) (ch : ℕ)
      (ws : State mpsc)
      → lookup id ws.0.streams ≡ some st
      → st.data_tx ≡ some ch
      → (deliver initial_window id (b ∷ bs) st ch ws).1 ≡ false
      → on_data initial_window id (b ∷ bs) fin ws
        ≡ on_fin id fin (deliver initial_window id (b ∷ bs) st ch ws).0
  unfolding on_data on_payload
  on_data-deliver initial_window id b bs fin st ch (w, s) e t k =
      ap (after_payload id fin) payload ∙ after_payload-kept id fin _ k
    where
      payload :
          on_payload initial_window id (b ∷ bs) (w, s)
          ≡ deliver initial_window id (b ∷ bs) st ch (w, s)
      payload = ground arith

  -- A DATA frame for a stream that is open and whose reader is there, with a payload that is not
  -- empty. If the reader's channel takes it, just this payload is queued, behind what was queued, and
  -- the peer is owed as many bytes more; if the channel is full, nothing is queued and nothing more is
  -- owed. No other stream's channel changes. What is owed is the counter and the WINDOW_UPDATEs on
  -- their way, whether or not the update channel had room. (The counter and the payload together stay
  -- below 2^32, since a delta is a u32.)
  pub data_frame-Balanced :
      (initial_window id : ℕ) (b : ℕ) (bs : Bytes) (fin : Bool) (st : StreamState) (ch : ℕ)
      (ws : State mpsc)
      → lookup id ws.0.streams ≡ some st
      → st.data_tx ≡ some ch
      → st.consumed_since_update + length (b ∷ bs) < 2 ^ 32
      → (mpsc.try_send Bytes (ws.1.data_channels ch) (b ∷ bs)).0 ≢ disconnected
      → let after = dispatch_frame_in_worker initial_window (Frame.data_frame id (b ∷ bs) fin) ws in
        let answer = (mpsc.try_send Bytes (ws.1.data_channels ch) (b ∷ bs)).0 in
        (answer ≡ sent
          → (waiting ch after ≡ waiting ch ws ++ (b ∷ bs) ∷ [])
            × (owed id after ≡ owed id ws + length (b ∷ bs)))
        × (answer ≡ full → (waiting ch after ≡ waiting ch ws) × (owed id after ≡ owed id ws))
        × SameOthers ch ws after
  unfolding dispatch_frame_in_worker
  data_frame-Balanced initial_window id b bs fin st ch (w, s) e t h n =
      rw
        (
          on_data-deliver initial_window id b bs fin st ch (w, s) e t balanced.1,
          waiting-on_fin id ch fin after,
          owed-on_fin id fin after,
          on_fin_channels id fin after,
        )
        balanced.0
    where
      balanced :
          Balanced id ch (b ∷ bs) (w, s) (deliver initial_window id (b ∷ bs) st ch (w, s)).0
          × ((deliver initial_window id (b ∷ bs) st ch (w, s)).1 ≡ false)
      balanced = deliver-Balanced initial_window id (b ∷ bs) st ch (w, s) e h n

      after : State mpsc
      after = (deliver initial_window id (b ∷ bs) st ch (w, s)).0
