-- ===== src/Mux/Handle.antt =====
-- crates/spdy-mux/src/mux/handle.rs: the handle that opens pairs of streams.
pub mod Capacity
pub mod Realized
pub mod Opened
use kube_portforward.Prelude.{
  ℕ, zero, suc, ◌+◌, ◌-◌, ◌%◌, ◌^◌, min, Bool, ◌||◌, ltb, leb, if◌then◌else◌,
}
use kube_portforward.Prelude.Int.{ℤ}
use kube_portforward.Prelude.Maps.{update}
use kube_portforward.Error.{Result, ok, err, Error, mux_closed, capacity_exhausted}
use kube_portforward.Frame.{Headers}
use kube_portforward.Mux.{max_stream_id}
use kube_portforward.Mux.Channel.{Mpsc, SendResult, sent, full, disconnected}
use kube_portforward.Mux.Commands.{MuxCommand, StreamRegistration, OpenState}
use kube_portforward.Mux.Window.{new_window}
use kube_portforward.Mux.Reader.{worker_of}

-- The fields of `MuxHandle` that open and close pairs of streams. `windows` is the store that send
-- windows are allocated in, and `fresh` the next address, which one-shot senders are taken from too.
pub record MuxHandle (mpsc : Mpsc) : Type 0 where
  pub cmd_tx : mpsc.Chan MuxCommand
  pub control_tx : mpsc.Chan MuxCommand
  pub reg_txs : ℕ → mpsc.Chan StreamRegistration
  pub close_reg_txs : ℕ → mpsc.Chan StreamRegistration
  pub active_pairs : ℕ
  pub open_seq : OpenState
  pub peer_initial_window : ℕ
  pub peer_max_concurrent : ℕ
  pub local_max_concurrent : ℕ
  pub local_operating_max : ℕ
  pub goaway_received : Bool
  pub max_frame_size : ℕ
  pub closed : Bool
  pub windows : ℕ → ℤ
  pub fresh : ℕ

-- `OpenedStreamParts`, less the permits, which are part of the channels.
pub record OpenedStreamParts : Type 0 where
  pub data_id : ℕ
  pub error_id : ℕ
  pub send_window : ℕ

-- `fetch_add(1)` and `fetch_sub(1)` of a usize.
abbrev pub increment : ℕ → ℕ
increment n = (n + 1) % 2 ^ 64

abbrev pub decrement : ℕ → ℕ
decrement n = (n + (2 ^ 64 - 1)) % 2 ^ 64

abbrev pub limit_of : ℕ → ℕ → ℕ
limit_of local peer = if ltb 0 peer then min local peer else local

abbrev pub Outcome : Mpsc → Type 0
Outcome mpsc = Result OpenedStreamParts × MuxHandle mpsc

module _ {mpsc : Mpsc} where
  unfoldable pub operating_limit : MuxHandle mpsc → ℕ
  operating_limit h = limit_of h.local_operating_max h.peer_max_concurrent

  unfoldable pub hard_limit : MuxHandle mpsc → ℕ
  hard_limit h = limit_of h.local_max_concurrent h.peer_max_concurrent

  unfoldable pub operating_capacity : MuxHandle mpsc → ℕ
  unfolding operating_limit
  operating_capacity h = operating_limit h - h.active_pairs

  unfoldable pub release_pair : MuxHandle mpsc → MuxHandle mpsc
  release_pair h = record h { active_pairs = decrement h.active_pairs }

  -- The reservation of `open_stream_pair`; on success the frame size that the stream keeps.
  unfoldable pub open_stream_pair : MuxHandle mpsc → Result ℕ × MuxHandle mpsc
  unfolding operating_limit hard_limit release_pair
  open_stream_pair h =
      let prev = h.active_pairs in
      let h' = record h { active_pairs = increment prev } in
      if h.closed || h.goaway_received
      then (err mux_closed, h)
      else if leb (operating_limit h) (prev % 2 ^ 32)
      then (err (capacity_exhausted prev (operating_limit h)), release_pair h')
      else (if leb (hard_limit h) (prev % 2 ^ 32)
          then (err (capacity_exhausted prev (hard_limit h)), release_pair h')
          else (ok h.max_frame_size, h'))

  -- `let _ = close_reg_tx_for(id).try_send(Close { stream_id: id })`.
  unfoldable pub send_closed : ℕ → MuxHandle mpsc → MuxHandle mpsc
  send_closed id h = record h {
    close_reg_txs =
        update h.close_reg_txs (worker_of id)
          (mpsc.try_send StreamRegistration (h.close_reg_txs (worker_of id))
            (StreamRegistration.closes id)).1;
  }

  abbrev pub cleanup_registration : ℕ → ℕ → MuxHandle mpsc → MuxHandle mpsc
  cleanup_registration error_id data_id h = send_closed data_id (send_closed error_id h)

  -- How a `TrySendError` is reported.
  unfoldable pub try_error : SendResult → MuxHandle mpsc → Error
  unfolding operating_limit
  try_error full h = capacity_exhausted h.active_pairs (operating_limit h)
  try_error _ h = mux_closed

-- The rest of `realize_stream_pair`, from its last step to its first.
module _ {mpsc : Mpsc} (error_id data_id : ℕ) where
  abbrev give_back_control : ℕ → MuxHandle mpsc → MuxHandle mpsc
  give_back_control zero h = h
  give_back_control (suc n) h =
      let h' = give_back_control n h in
      record h' { control_tx = mpsc.permit_drop MuxCommand h'.control_tx }

  abbrev give_back_close : ℕ → MuxHandle mpsc → MuxHandle mpsc
  give_back_close id h = record h {
    close_reg_txs =
        update h.close_reg_txs (worker_of id)
          (mpsc.permit_drop StreamRegistration (h.close_reg_txs (worker_of id)));
  }

  abbrev reserve_control : MuxHandle mpsc → SendResult × MuxHandle mpsc
  reserve_control h =
      let (r, tx) = mpsc.try_reserve MuxCommand h.control_tx in (r, record h { control_tx = tx })

  abbrev reserve_close : ℕ → MuxHandle mpsc → SendResult × MuxHandle mpsc
  reserve_close id h =
      let (r, tx) = mpsc.try_reserve StreamRegistration (h.close_reg_txs (worker_of id)) in
      (r, record h { close_reg_txs = update h.close_reg_txs (worker_of id) tx })

  -- The four permits. One that is refused gives the earlier ones back.
  unfoldable pub reserve_permits : ℕ → MuxHandle mpsc → Outcome mpsc
  unfolding send_closed
  reserve_permits window h =
      let fails = cleanup_registration error_id data_id in
      let (r1, h1) = reserve_control h in
      let (r2, h2) = reserve_control h1 in
      let (r3, h3) = reserve_close error_id h2 in
      let (r4, h4) = reserve_close data_id h3 in
      elim r1 [
        | sent ↦ elim r2 [
          | sent ↦ elim r3 [
            | sent ↦ elim r4 [
              | sent ↦
                  (ok (record { data_id = data_id; error_id = error_id; send_window = window }), h4)
              | _ ↦ (err mux_closed, give_back_control 2 (give_back_close error_id (fails h3)))
            ]
            | _ ↦ (err mux_closed, give_back_control 2 (fails h2))
          ]
          | _ ↦ (err mux_closed, give_back_control 1 (fails h1))
        ]
        | _ ↦ (err mux_closed, fails h)
      ]

  unfoldable pub enqueue_open : Headers → Headers → ℕ → MuxHandle mpsc → Outcome mpsc
  unfolding send_closed try_error reserve_permits
  enqueue_open error_headers data_headers window h =
      let command = MuxCommand.open_stream_pair error_id data_id error_headers data_headers in
      let (r, tx) = mpsc.try_send MuxCommand h.cmd_tx command in
      let h' = record h { cmd_tx = tx } in
      elim r [
        | sent ↦ reserve_permits window h'
        | full ↦ (err (try_error full h'), cleanup_registration error_id data_id h')
        | disconnected ↦ (err mux_closed, cleanup_registration error_id data_id h')
      ]

  -- `reg_tx_for(id).try_send(Open { … })`.
  abbrev register : ℕ → ℕ → ℕ → ℕ → MuxHandle mpsc → SendResult × MuxHandle mpsc
  register id data_tx reply_tx window h =
      let (r, tx) =
        mpsc.try_send StreamRegistration (h.reg_txs (worker_of id))
          (StreamRegistration.opens id data_tx reply_tx window) in
      (r, record h { reg_txs = update h.reg_txs (worker_of id) tx })

  unfoldable pub register_data : Headers → Headers → ℕ → ℕ → ℕ → MuxHandle mpsc → Outcome mpsc
  unfolding send_closed try_error enqueue_open
  register_data error_headers data_headers data_tx reply_tx window h =
      let (r, h') = register data_id data_tx reply_tx window h in
      elim r [
        | sent ↦ enqueue_open error_headers data_headers window h'
        | full ↦ (err (try_error full h'), send_closed error_id h')
        | disconnected ↦ (err mux_closed, send_closed error_id h')
      ]

  -- The windows at `fresh` and `fresh + 2`, the reply senders behind each.
  unfoldable pub register_pair : Headers → Headers → ℕ → ℕ → MuxHandle mpsc → Outcome mpsc
  unfolding try_error register_data
  register_pair error_headers data_headers data_tx error_tx h =
      let at = h.fresh in
      let initial = new_window h.peer_initial_window in
      let h0 = record h {
        windows = update (update h.windows at initial) (at + 2) initial;
        fresh = at + 4;
      } in
      let (r, h') = register error_id error_tx (at + 1) at h0 in
      elim r [
        | sent ↦ register_data error_headers data_headers data_tx (at + 3) (at + 2) h'
        | full ↦ (err (try_error full h'), h')
        | disconnected ↦ (err mux_closed, h')
      ]

module _ {mpsc : Mpsc} where
  unfoldable pub allocate_pair : Headers → Headers → ℕ → ℕ → MuxHandle mpsc → Outcome mpsc
  unfolding register_pair
  allocate_pair error_headers data_headers data_tx error_tx h =
      let error_id = h.open_seq.next_stream_id in
      let data_id = (error_id + 2) % 2 ^ 32 in
      if (ltb max_stream_id data_id) || (ltb max_stream_id error_id)
      then (
        err mux_closed,
        record h {
          control_tx =
              (mpsc.try_send MuxCommand h.control_tx
                (MuxCommand.go_away ((error_id + (2 ^ 32 - 2)) % 2 ^ 32))).1;
        },
      )
      else register_pair error_id data_id error_headers data_headers data_tx error_tx
          (record h { open_seq = record { next_stream_id = (data_id + 2) % 2 ^ 32 } })

  -- `realize_stream_pair`. The first test runs before the lock is taken: `early` tells what it saw.
  unfoldable pub realize_stream_pair :
      Bool → Headers → Headers → ℕ → ℕ → MuxHandle mpsc → Outcome mpsc
  unfolding allocate_pair
  realize_stream_pair early error_headers data_headers data_tx error_tx h =
      if early || (h.closed || h.goaway_received)
      then (err mux_closed, h)
      else allocate_pair error_headers data_headers data_tx error_tx h
