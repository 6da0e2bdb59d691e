-- ===== src/Lib.antt =====
-- The two crates of kube-portforward. spdy-mux is a SPDY/3.1 codec and a multiplexer, whose tasks
-- carry many streams over one connection; kube-portforward forwards ports of Kubernetes pods over
-- it: it follows which pod is ready, keeps a pool of sessions to that pod, and takes streams from
-- them.
--
-- The parts and how they interact. A user's stream writes DATA frames to the command channel of the
-- writer task, as far as its send window allows, and reads what its frame worker puts into its
-- channel. The reader task cuts the peer's bytes into frames by the codec and routes each frame to
-- one of five workers by the stream's number, or answers it itself. The workers keep the streams:
-- they deliver payloads, give window back to the peer, and close windows when a stream ends. The
-- writer encodes commands and puts them on the wire. The handle opens pairs of streams, an error
-- stream and a data stream, under a lock. A session of spdy-mux chooses one of several handles for
-- each pair. A session of kube-portforward wraps it for one port of one pod, and keeps spare
-- streams. The forwarder pools such sessions: a call asks the pod watch for a ready pod, makes it
-- the target of the pool, reuses a session or opens one, and connects on it; tasks open sessions
-- ahead of need, prune idle ones, and drain the pool when the pod dies.
--
-- Files, with the code that each models (paths below crates/spdy-mux/src, then below
-- crates/kube-portforward/src):
--   Error, Wire, Frame      error.rs; the words of codec.rs; the enum Frame and constants of codec.rs
--   Headers, Dictionary     codec.rs: the block that compress_headers serialises, parse_header_block;
--                           dictionary.rs
--   Flate                   the zlib streams of the crate flate2, which is not in the repository: a
--                           record of operations, and what the code relies on as laws
--   Inflate, Deflate        codec.rs: decompress_headers, compress_headers
--   Codec                   codec.rs: the encoders, decode_frame, decode_control_frame
--   Mux/Channel             tokio's bounded channels as a record of operations with laws
--   Mux/Commands, Mux       mux/commands.rs; the constants of mux/mod.rs
--   Mux/Window              mux/window.rs: SendWindow, an i64
--   Mux/Worker              mux/worker.rs: dispatch_frame_in_worker, apply_registration,
--                           run_frame_worker
--   Mux/Reader              mux/reader.rs: route_frame; Mux/Reader/Loop: run_reader
--   Mux/Writer              mux/writer.rs: process_writer_command, the batches and the deferred close
--                           notifications of run_writer; Mux/Writer/Start: what it sends first;
--                           Mux/Writer/Loop: run_writer with its select! loop
--   Mux/Handle              mux/handle.rs: open_stream_pair, realize_stream_pair and the limits
--   Mux/Guard               stream.rs: the guards and their drop
--   Mux/Writing             stream.rs: poll_write_via_sender, poll_shutdown_opened
--   Mux/Reading             stream.rs: poll_read_channel, poll_fill_buf_channel, consume_channel_buf
--   Mux/Stream              stream.rs: Stream, opened on first use: ensure_open, poll_read, poll_write,
--                           poll_shutdown and drop
--   Session                 session.rs: Session::with_config, open_stream_pair, pick_two, the costs and
--                           totals; Session/Tries, Rounds, Outcomes, Opens, Limits are its proofs
--   Pods                    pod_watch.rs: PodWatcher, ready_pod, wait_for_ready_pod, update_latest,
--                           handle_deleted_pod, is_pod_selected; Pods/Tasks: the watcher's two tasks
--                           and the calls of ready_pod, interleaved
--   Forwarder               forwarder/pool.rs, and open_session of forwarder/lifecycle.rs
--   Forwarder/Prefetches    forwarder/prefetch.rs: maybe_prefetch, the task it spawns, prune_once
--   Forwarder/Calls         forwarder/lifecycle.rs: ensure_session_for_pod, handle_pod_died
--   Forwarder/System        the calls and tasks interleaved; shutdown of forwarder/mod.rs
--   Portforward             session.rs: connect, replenish_spare_streams, the headers; stream.rs; and
--                           connect_on_pod of forwarder/mod.rs
--   Prelude, Tests          shared helpers; the theorems at concrete inputs
--
-- Conventions. A byte is a number, and the code's masks and shifts are remainders and divisions by
-- powers of two; u32, u64 and i64 wrap around where the code's types do and a bound does not
-- exclude it. A shared object (a window, a channel, a one-shot sender) is an address in a store.
-- Each function on the state takes the state and returns it. What other threads and the peer do is
-- an argument: the values that an atomic had at each look, the answers of a channel or of the
-- transport, the list of events that select! finds. What is sent to the writer's channels during a
-- turn of its loop counts as sent before the next turn, but for what two branches are shown to read
-- late. In the forwarder each section under the pool's lock, with the cancellations that follow it,
-- is one step. A call of ensure_session_for_pod is a machine with a phase for each await and each
-- lock, and calls and tasks take steps in any order. The sessions of the pool are addresses in a
-- store of what their methods answer, which may change between any two steps. A pod is what the
-- code reads of it; the store of the reflector is a list of pods. ready_pod, update_latest and
-- handle_deleted_pod are given by their steps, between which other tasks run, in Pods/Tasks, and as
-- the functions that they are when nothing runs in between; wait_for_ready_pod and the forwarder
-- use these. The comparison of floating-point numbers in maybe_prefetch is a parameter. The
-- operations of one session run without another in between. maybe_prefetch spawns the task that
-- replenishes the spare streams of a session; in the store of sessions its work is a change of what
-- the session answers, and in Portforward it is the function itself.
--
-- Fuel. Three loops run on fuel: the loops around zlib, for which the laws of Flate say that each
-- call reads, writes or reports, and the reader's inner loop, whose every round takes eight bytes
-- at least. The functions that the rest uses are given as much as these bounds ask for; a value
-- that stands for fuel used up is no value of the program. The machine of a call has no loop but
-- the one retry. The loops of the session run once for each handle, or for each spare stream that
-- is wanted.
--
-- Not modelled: tracing, wakers, and the runtime's scheduling; the supervisor; spawn, close and
-- shutdown of the handle and the session; the halves of a stream after split(); the transport
-- adapters. Of the crate kube-portforward: client.rs, connect.rs and subprotocol.rs, which speak
-- HTTP and TLS through kube; the builder; recovery.rs; and the loops of the watcher, the reactor
-- and the pruner that call the modelled functions on each event. The examples.
pub mod Prelude
pub mod Error
pub mod Wire
pub mod Frame
pub mod Flate
pub mod Headers
pub mod Dictionary
pub mod Inflate
pub mod Deflate
pub mod Codec
pub mod Mux
pub mod Session
pub mod Pods
pub mod Forwarder
pub mod Portforward
pub mod Tests
