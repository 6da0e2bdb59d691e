-- ===== src/Mux/Writer/Watchdog.antt =====
-- crates/spdy-mux/src/mux/writer.rs, the loop of `run_writer`: when the stall watchdog cancels.
use kube_portforward.Prelude.{
  ℕ, ◌+◌, ◌*◌, ◌-◌, ◌<◌, ◌≡◌, ◌⊎◌, inl, inr, refl, ap, ◌∙◌, List, [], ◌∷◌, ◌++◌, Bool, true, false,
  ◌&&◌, ltb, length, if◌then◌else◌, arith,
}
use kube_portforward.Flate.{Flate}
use kube_portforward.Mux.Channel.{Mpsc}
use kube_portforward.Mux.Commands.{MuxCommand}
use kube_portforward.Mux.Writer.Loop.{
  WriterTask, Found, receive, on_windows, on_controls, drain_controls, send_commands, on_commands,
  on_ping_tick, flush_batch, notify_workers, end_turn, on_stall_tick, on_ticks, from_commands,
  from_controls, from_windows, writer_turn,
}
use kube_portforward.Mux.Writer.Queues.{Holds}

both_hold : (a b n : ℕ) → (ltb a b && ltb 0 n) ≡ true → (a < b) × (0 < n)
both_hold a b n e = (ground arith, ground arith)

length_late : (held late : List MuxCommand) → held ≡ [] → length (held ++ late) ≡ length late
length_late held late e = ap (λ l. length (l ++ late)) e

module _ {flate : Flate} {mpsc : Mpsc} where
  -- The watchdog ended the loop: no channel held a command when `select!` looked, the last flush was
  -- more than twice the timeout ago, and something was sent after that look.
  pub record Stalled (write_timeout : ℕ) (found : Found) (t : WriterTask flate mpsc) : Type 0 where
    pub stall_tick : found.stall_tick ≡ true
    pub empty : Holds [] [] [] t
    pub overdue : write_timeout * 2 < found.now - t.last_writer_progress
    pub late : 0 < length found.late_controls + length found.late_commands

  -- The token is as it was, or the watchdog has cancelled it.
  abbrev pub Kept : ℕ → Found → WriterTask flate mpsc → Bool × WriterTask flate mpsc → Type 0
  Kept write_timeout found t r = (r.1.is_cancelled ≡ t.is_cancelled) ⊎ Stalled write_timeout found t

  if-Kept :
      (write_timeout : ℕ) (found : Found) (t : WriterTask flate mpsc) (b : Bool)
      (x y : Bool × WriterTask flate mpsc)
      → (b ≡ true → Kept write_timeout found t x)
      → Kept write_timeout found t y
      → Kept write_timeout found t (if b then x else y)
  if-Kept write_timeout found t true x y p q = p refl
  if-Kept write_timeout found t false x y p q = q

  end_turn_token :
      (now : ℕ) (r : Bool × WriterTask flate mpsc)
      → (end_turn now r).1.is_cancelled ≡ r.1.is_cancelled
  unfolding end_turn flush_batch notify_workers
  end_turn_token now (had_error, t) = ground arith

  on_commands_token :
      (found : Found) (c : MuxCommand) (cs : List MuxCommand) (t : WriterTask flate mpsc)
      → (on_commands found c cs t).1.is_cancelled ≡ t.is_cancelled
  unfolding on_commands drain_controls send_commands
  on_commands_token found c cs t = ground arith

  on_stall_tick-Kept :
      (write_timeout : ℕ) (found : Found) (t : WriterTask flate mpsc)
      → Holds [] [] [] t
      → found.stall_tick ≡ true
      → Kept write_timeout found t (on_stall_tick write_timeout found t)
  unfolding on_stall_tick
  on_stall_tick-Kept write_timeout found t empty tick =
      let t' = record t {
        control_rx = t.control_rx ++ found.late_controls;
        cmd_rx = t.cmd_rx ++ found.late_commands;
      } in
      let late_for = found.now - t.last_writer_progress in
      let queued = length t'.control_rx + length t'.cmd_rx in
      if-Kept write_timeout found t (ltb (write_timeout * 2) late_for && ltb 0 queued)
        (false, record t' { is_cancelled = true }) (true, t')
        (λ stalled.
          let (overdue, some') = both_hold (write_timeout * 2) late_for queued stalled in
          inr (record {
            stall_tick = tick;
            empty = empty;
            overdue = overdue;
            late = omega (
              arith,
              some',
              length_late t.control_rx found.late_controls empty.1,
              length_late t.cmd_rx found.late_commands empty.2,
            );
          }))
        (inl refl)

  on_ticks-Kept :
      (write_timeout : ℕ) (found : Found) (t : WriterTask flate mpsc)
      → Holds [] [] [] t
      → Kept write_timeout found t (on_ticks write_timeout found t)
  unfolding on_ticks on_ping_tick
  on_ticks-Kept write_timeout found t empty =
      if-Kept write_timeout found t found.ping_tick (end_turn found.now (on_ping_tick t))
        (if found.stall_tick then on_stall_tick write_timeout found t else (true, t))
        (λ tick. inl (end_turn_token found.now (on_ping_tick t)))
        (if-Kept write_timeout found t found.stall_tick (on_stall_tick write_timeout found t)
          (true, t) (on_stall_tick-Kept write_timeout found t empty) (inl refl))

  from_commands-Kept :
      (write_timeout : ℕ) (found : Found) (queued : List MuxCommand) (t : WriterTask flate mpsc)
      → t.window_rx ≡ []
      → t.control_rx ≡ []
      → t.cmd_rx ≡ queued
      → Kept write_timeout found t (from_commands write_timeout found queued t)
  unfolding from_commands
  from_commands-Kept write_timeout found [] t w c q =
      if-Kept write_timeout found t found.cmd_is_closed (false, t) (on_ticks write_timeout found t)
        (λ closed. inl refl) (on_ticks-Kept write_timeout found t (w, c, q))
  from_commands-Kept write_timeout found (m ∷ ms) t w c q =
      inl (end_turn_token found.now (on_commands found m ms t) ∙ on_commands_token found m ms t)

  from_controls-Kept :
      (write_timeout : ℕ) (found : Found) (queued : List MuxCommand) (t : WriterTask flate mpsc)
      → t.window_rx ≡ []
      → t.control_rx ≡ queued
      → Kept write_timeout found t (from_controls write_timeout found queued t)
  unfolding from_controls on_controls
  from_controls-Kept write_timeout found [] t w c =
      if-Kept write_timeout found t found.control_is_closed (false, t)
        (from_commands write_timeout found t.cmd_rx t) (λ closed. inl refl)
        (from_commands-Kept write_timeout found t.cmd_rx t w c refl)
  from_controls-Kept write_timeout found (m ∷ ms) t w c =
      inl (end_turn_token found.now (on_controls m ms t))

  from_windows-Kept :
      (write_timeout : ℕ) (found : Found) (queued : List MuxCommand) (t : WriterTask flate mpsc)
      → t.window_rx ≡ queued
      → Kept write_timeout found t (from_windows write_timeout found queued t)
  unfolding from_windows on_windows
  from_windows-Kept write_timeout found [] t w =
      if-Kept write_timeout found t found.window_is_closed (false, t)
        (from_controls write_timeout found t.control_rx t) (λ closed. inl refl)
        (from_controls-Kept write_timeout found t.control_rx t w refl)
  from_windows-Kept write_timeout found (m ∷ ms) t w =
      inl (end_turn_token found.now (on_windows m ms t))

  -- A turn of the writer's loop by itself, before the task ends, cancels a session that was not
  -- cancelled only in this case: the watchdog's tick has come, none of the three channels held a
  -- command when `select!` looked, the last flush was more than twice the timeout ago, and a command
  -- was sent between that look and the watchdog's own. Commands that are queued before the look it
  -- does not see.
  pub writer_turn-Stalled :
      (write_timeout : ℕ) (found : Found) (t : WriterTask flate mpsc)
      → t.is_cancelled ≡ false
      → (writer_turn write_timeout found t).1.is_cancelled ≡ true
      → Stalled write_timeout found (receive found t)
  unfolding writer_turn receive
  writer_turn-Stalled write_timeout found t live cancelled =
      let r = receive found t in
      elim (if-Kept write_timeout found r found.is_cancelled (false, r)
        (from_windows write_timeout found r.window_rx r) (λ e. inl refl)
        (from_windows-Kept write_timeout found r.window_rx r refl)) [
          | inl same ↦ absurd (cc)
          | inr stalled ↦ stalled
        ]
