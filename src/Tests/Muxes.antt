-- ===== src/Tests/Muxes.antt =====
-- The multiplexer's theorems at concrete inputs.
use kube_portforward.Prelude.{◌+◌, ◌≡◌, refl, [], ◌∷◌, ◌++◌, true, false, some, arith}
use kube_portforward.Prelude.Int.{pos}
use kube_portforward.Prelude.Maps.{lookup}
use kube_portforward.Error.{err, stream_reset}
use kube_portforward.Frame.{Frame}
use kube_portforward.Mux.Channel.{SendResult, sent, full}
use kube_portforward.Wire.{Bytes}
use kube_portforward.Mux.Commands.{StreamRegistration}
use kube_portforward.Mux.Worker.{
  Worker, Shared, State, StreamState, dispatch_frame_in_worker, apply_registration,
}
use kube_portforward.Mux.Worker.Teardown.{IsGone, answers, rst_stream-IsGone}
use kube_portforward.Mux.Worker.GoAway.{IsAfterGoAway, go_away-IsAfterGoAway}
use kube_portforward.Mux.Worker.Full.{data_frame_lost}
use kube_portforward.Mux.Worker.Flow.{owed, waiting, SameOthers, data_frame-Balanced}
use kube_portforward.Tests.Models.{bounded, bounded_laws}

-- Streams 1 and 3, with windows 11 and 13; stream 3 still waits for its reply.
abbrev stream_three : StreamState
stream_three = record { data_tx = some 3; send_window = 13; consumed_since_update = 6 }

abbrev worker : Worker
worker = record {
  streams =
      (1, record { data_tx = some 1; send_window = 11; consumed_since_update = 0 })
      ∷ (3, stream_three)
      ∷ [];
  pending_replies = (3, 21) ∷ [];
}

abbrev shared : Shared bounded
shared = record {
  windows = λ at. pos 100;
  data_channels = λ at. ([], 2);
  replies = [];
  control = ([], 2);
  window_updates = ([], 1);
}

rst_stream-IsGone_example :
    IsGone {mpsc = bounded}
      (worker, shared)
      3
      (dispatch_frame_in_worker {mpsc = bounded} 16 (Frame.rst_stream 3 7) (worker, shared))
    × ((dispatch_frame_in_worker {mpsc = bounded} 16
          (Frame.rst_stream 3 7)
          (worker, shared)).1.replies
        ≡ [] ++ answers (lookup 3 worker.pending_replies) (err (stream_reset 3 7)))
rst_stream-IsGone_example = rst_stream-IsGone {mpsc = bounded} 16 3 7 (worker, shared)

go_away-IsAfterGoAway_example :
    IsAfterGoAway {mpsc = bounded} 1
      (worker, shared)
      (apply_registration {mpsc = bounded} (StreamRegistration.go_away 1 0) (worker, shared))
go_away-IsAfterGoAway_example = go_away-IsAfterGoAway {mpsc = bounded} 1 0 (worker, shared)

-- The worker after a DATA frame of two bytes for stream 3.
abbrev after_data : State bounded
after_data =
    dispatch_frame_in_worker {mpsc = bounded} 16 (Frame.data_frame 3 (7 ∷ 8 ∷ []) true)
      (worker, shared)

abbrev answer : SendResult
answer = (bounded.try_send Bytes (shared.data_channels 3) (7 ∷ 8 ∷ [])).0

data_frame-Balanced_example :
    (answer ≡ sent
      → (waiting {mpsc = bounded} 3 after_data
          ≡ waiting {mpsc = bounded} 3 (worker, shared) ++ (7 ∷ 8 ∷ []) ∷ [])
        × (owed {mpsc = bounded} 3 after_data ≡ owed {mpsc = bounded} 3 (worker, shared) + 2))
    × (answer ≡ full
        → (waiting {mpsc = bounded} 3 after_data ≡ waiting {mpsc = bounded} 3 (worker, shared))
          × (owed {mpsc = bounded} 3 after_data ≡ owed {mpsc = bounded} 3 (worker, shared)))
    × SameOthers {mpsc = bounded} 3 (worker, shared) after_data
unfolding lookup
data_frame-Balanced_example =
    data_frame-Balanced bounded_laws 16 3 7 (8 ∷ []) true stream_three 3 (worker, shared) refl refl
      (omega arith) (λ e. cc)

abbrev shared_full : Shared bounded
shared_full = record shared { data_channels = λ at. ((1 ∷ []) ∷ [], 0) }

data_frame_lost_example :
    dispatch_frame_in_worker {mpsc = bounded} 16
      (Frame.data_frame 3 (7 ∷ 8 ∷ []) false)
      (worker, shared_full)
    ≡ (worker, shared_full)
unfolding lookup
data_frame_lost_example =
    data_frame_lost bounded_laws 16 3 7 (8 ∷ []) stream_three 3 worker shared_full refl refl refl
