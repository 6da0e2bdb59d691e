-- ===== src/Mux/Guard.antt =====
-- crates/spdy-mux/src/stream.rs: the two guards of a stream, `PairReleaseGuard` and `StreamGuard`,
-- and what dropping them does.
pub mod Dropped
use kube_portforward.Prelude.{ℕ, Bool, false, if◌then◌else◌}
use kube_portforward.Prelude.Maps.{update}
use kube_portforward.Mux.{rst_status_cancel}
use kube_portforward.Mux.Channel.{Mpsc}
use kube_portforward.Mux.Commands.{MuxCommand, StreamRegistration}
use kube_portforward.Mux.Reader.{worker_of}
use kube_portforward.Mux.Handle.{MuxHandle, release_pair}

-- The guard of a stream that is not opened.
pub record PairReleaseGuard : Type 0 where
  pub armed : Bool

-- The guard of an opened stream; its four permits are part of the channels of the handle.
pub record StreamGuard : Type 0 where
  pub data_id : ℕ
  pub error_id : ℕ
  pub graceful_shutdown : Bool

unfoldable pub disarm : PairReleaseGuard → PairReleaseGuard
disarm g = record g { armed = false }

module _ {mpsc : Mpsc} where
  unfoldable pub drop_release_guard : PairReleaseGuard → MuxHandle mpsc → MuxHandle mpsc
  unfolding release_pair
  drop_release_guard g h = if g.armed then release_pair h else h

  -- `permit.send(…)` on a worker's close channel.
  unfoldable pub send_permit_close : ℕ → MuxHandle mpsc → MuxHandle mpsc
  send_permit_close id h = record h {
    close_reg_txs = update h.close_reg_txs (worker_of id) (
        mpsc.permit_send StreamRegistration (h.close_reg_txs (worker_of id))
          (StreamRegistration.closes id));
  }

  unfoldable pub drop_control_permit : MuxHandle mpsc → MuxHandle mpsc
  drop_control_permit h = record h { control_tx = mpsc.permit_drop MuxCommand h.control_tx }

  unfoldable pub send_reset : StreamGuard → MuxHandle mpsc → MuxHandle mpsc
  send_reset g h = record h {
    control_tx =
        mpsc.permit_send MuxCommand h.control_tx
          (MuxCommand.close_stream g.data_id rst_status_cancel);
  }

  -- `Drop for StreamGuard`; a permit of the data stream that was not taken is dropped in the end.
  unfoldable pub drop_stream_guard : StreamGuard → MuxHandle mpsc → MuxHandle mpsc
  unfolding release_pair send_permit_close drop_control_permit send_reset
  drop_stream_guard g h =
      let h1 = drop_control_permit h in
      let h2 = if g.graceful_shutdown then drop_control_permit h1 else send_reset g h1 in
      release_pair (send_permit_close g.data_id (send_permit_close g.error_id h2))
