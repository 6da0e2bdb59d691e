-- ===== src/Mux/Writer/Turns.antt =====
-- crates/spdy-mux/src/mux/writer.rs, the loop of `run_writer`: the order in which the channels are
-- served, what the watchdog sees, and that the queues become empty.
use kube_portforward.Prelude.{
  ℕ, ◌≡◌, ◌≢◌, ◌⊎◌, inl, inr, refl, subst, ◌∙◌, List, [], ◌∷◌, ◌++◌, Bool, true, false, take, drop,
  if◌then◌else◌, arith,
}
use kube_portforward.Flate.{Flate}
use kube_portforward.Mux.Channel.{Mpsc}
use kube_portforward.Mux.Commands.{MuxCommand}
use kube_portforward.Mux.Writer.Loop.{
  write_batch_cap, WriterTask, Found, receive, on_windows, on_controls, on_commands, on_ping_tick,
  end_turn, on_stall_tick, on_ticks, from_commands, from_controls, from_windows, writer_turn,
}
use kube_portforward.Mux.Writer.Queues.{
  Holds, Took, end_turn-Holds, windows-Took, controls-Took, commands-Took,
}

abbrev Lists : Type 0
Lists = List MuxCommand × List MuxCommand × List MuxCommand × List MuxCommand

module _ {flate : Flate} {mpsc : Mpsc} where
  -- What a turn that goes on served, from `t`, which has what was sent before the turn.
  pub data Served (found : Found) (t t' : WriterTask flate mpsc) : Type 0 where
    windows : t.window_rx ≢ [] → Took t.window_rx [] t.control_rx t.cmd_rx t t' → Served found t t'
    controls :
        t.window_rx ≡ []
        → t.control_rx ≢ []
        → Took
            (take write_batch_cap t.control_rx)
            []
            (drop write_batch_cap t.control_rx)
            t.cmd_rx
            t
            t'
        → Served found t t'
    commands :
        t.window_rx ≡ []
        → t.control_rx ≡ []
        → t.cmd_rx ≢ []
        → Took
            (found.late_controls ++ take write_batch_cap t.cmd_rx)
            []
            []
            (drop write_batch_cap t.cmd_rx)
            t
            t'
        → Served found t t'
    ticks :
        Holds [] [] [] t
        → Holds [] [] [] t' ⊎ Holds [] found.late_controls found.late_commands t'
        → t'.is_cancelled ≡ t.is_cancelled
        → Served found t t'

  Took-equal :
      (p q : Lists) (t t' : WriterTask flate mpsc)
      → p ≡ q
      → Took p.0 p.1 p.2 p.3 t t'
      → Took q.0 q.1 q.2 q.3 t t'
  Took-equal p q t t' e = subst (λ (l : Lists). Took l.0 l.1 l.2 l.3 t t') e

  if-Served :
      (found : Found) (t : WriterTask flate mpsc) (b : Bool) (x y : Bool × WriterTask flate mpsc)
      → (x.0 ≡ true → Served found t x.1)
      → (y.0 ≡ true → Served found t y.1)
      → (if b then x else y).0 ≡ true
      → Served found t (if b then x else y).1
  if-Served found t true x y p q = p
  if-Served found t false x y p q = q

  ping-Served :
      (found : Found) (t : WriterTask flate mpsc)
      → Holds [] [] [] t
      → (end_turn found.now (on_ping_tick t)).0 ≡ true
      → Served found t (end_turn found.now (on_ping_tick t)).1
  unfolding on_ping_tick
  ping-Served found t empty e =
      let (fine, (a, b, c), wire, flushed, token) =
        end_turn-Holds found.now (on_ping_tick t).0 (on_ping_tick t).1 e in
      ticks empty (inl (a ∙ empty.0, b ∙ empty.1, c ∙ empty.2)) token

  stall-Served :
      (write_timeout : ℕ) (found : Found) (t : WriterTask flate mpsc)
      → Holds [] [] [] t
      → (on_stall_tick write_timeout found t).0 ≡ true
      → Served found t (on_stall_tick write_timeout found t).1
  unfolding on_stall_tick
  stall-Served write_timeout found t empty e = ticks empty (inr (ground arith)) (ground arith)

  on_ticks-Served :
      (write_timeout : ℕ) (found : Found) (t : WriterTask flate mpsc)
      → Holds [] [] [] t
      → (on_ticks write_timeout found t).0 ≡ true
      → Served found t (on_ticks write_timeout found t).1
  unfolding on_ticks
  on_ticks-Served write_timeout found t empty =
      if-Served found t found.ping_tick (end_turn found.now (on_ping_tick t))
        (if found.stall_tick then on_stall_tick write_timeout found t else (true, t))
        (ping-Served found t empty)
        (if-Served found t found.stall_tick (on_stall_tick write_timeout found t) (true, t)
          (stall-Served write_timeout found t empty) (λ e. ticks empty (inl empty) refl))

  from_commands-Served :
      (write_timeout : ℕ) (found : Found) (queued : List MuxCommand) (t : WriterTask flate mpsc)
      → t.window_rx ≡ []
      → t.control_rx ≡ []
      → t.cmd_rx ≡ queued
      → (from_commands write_timeout found queued t).0 ≡ true
      → Served found t (from_commands write_timeout found queued t).1
  unfolding from_commands
  from_commands-Served write_timeout found [] t w c q e =
      if-Served found t found.cmd_is_closed (false, t) (on_ticks write_timeout found t)
        (λ e. absurd (cc)) (on_ticks-Served write_timeout found t (w, c, q)) e
  from_commands-Served write_timeout found (m ∷ ms) t w c q e =
      commands w c (λ none. absurd (cc))
        (Took-equal
          (
            (t.control_rx ++ found.late_controls) ++ take write_batch_cap (m ∷ ms),
            t.window_rx,
            [],
            drop write_batch_cap (m ∷ ms),
          )
          (
            found.late_controls ++ take write_batch_cap t.cmd_rx,
            [],
            [],
            drop write_batch_cap t.cmd_rx,
          )
          t (end_turn found.now (on_commands found m ms t)).1 (cc) (commands-Took found m ms t e))

  from_controls-Served :
      (write_timeout : ℕ) (found : Found) (queued : List MuxCommand) (t : WriterTask flate mpsc)
      → t.window_rx ≡ []
      → t.control_rx ≡ queued
      → (from_controls write_timeout found queued t).0 ≡ true
      → Served found t (from_controls write_timeout found queued t).1
  unfolding from_controls
  from_controls-Served write_timeout found [] t w c e =
      if-Served found t found.control_is_closed (false, t)
        (from_commands write_timeout found t.cmd_rx t) (λ e. absurd (cc))
        (from_commands-Served write_timeout found t.cmd_rx t w c refl) e
  from_controls-Served write_timeout found (m ∷ ms) t w c e =
      controls w (λ none. absurd (cc))
        (Took-equal
          (take write_batch_cap (m ∷ ms), t.window_rx, drop write_batch_cap (m ∷ ms), t.cmd_rx)
          (take write_batch_cap t.control_rx, [], drop write_batch_cap t.control_rx, t.cmd_rx) t
          (end_turn found.now (on_controls m ms t)).1 (cc) (controls-Took found.now m ms t e))

  from_windows-Served :
      (write_timeout : ℕ) (found : Found) (queued : List MuxCommand) (t : WriterTask flate mpsc)
      → t.window_rx ≡ queued
      → (from_windows write_timeout found queued t).0 ≡ true
      → Served found t (from_windows write_timeout found queued t).1
  unfolding from_windows
  from_windows-Served write_timeout found [] t w e =
      if-Served found t found.window_is_closed (false, t)
        (from_controls write_timeout found t.control_rx t) (λ e. absurd (cc))
        (from_controls-Served write_timeout found t.control_rx t w refl) e
  from_windows-Served write_timeout found (m ∷ ms) t w e =
      windows (λ none. absurd (cc))
        (Took-equal (m ∷ ms, [], t.control_rx, t.cmd_rx) (t.window_rx, [], t.control_rx, t.cmd_rx) t
          (end_turn found.now (on_windows m ms t)).1 (cc) (windows-Took found.now m ms t e))

  -- A turn of the writer's loop after which the loop goes on served one channel only, the first that
  -- had commands, in the order window updates, controls, data: all window updates, or up to 64
  -- controls, or the controls that came meanwhile and up to 64 data commands. They were written
  -- whole and in their order, nothing else was put on the wire, the rest are queued as before, and
  -- the count of bytes since the last flush is zero. Only when all three channels were empty did it
  -- turn to the timers.
  pub writer_turn-Served :
      (write_timeout : ℕ) (found : Found) (t : WriterTask flate mpsc)
      → (writer_turn write_timeout found t).0 ≡ true
      → Served found (receive found t) (writer_turn write_timeout found t).1
  unfolding writer_turn
  writer_turn-Served write_timeout found t =
      let r = receive found t in
      if-Served found r found.is_cancelled (false, r)
        (from_windows write_timeout found r.window_rx r) (λ e. absurd (cc))
        (from_windows-Served write_timeout found r.window_rx r refl)
