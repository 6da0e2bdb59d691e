-- ===== src/Mux/Writer/Empties.antt =====
-- crates/spdy-mux/src/mux/writer.rs, the loop of `run_writer`: how many turns empty the queues, and
-- what the stall watchdog sees.
use kube_portforward.Prelude.{
  ℕ, ◌+◌, ◌-◌, ◌/◌, ◌≤◌, ◌≡◌, ◌≢◌, inl, inr, refl, ap, ◌∙◌, List, [], ◌∷◌, ◌++◌, Bool, true, false,
  length, drop, append-nil, length-drop, if◌then◌else◌, arith,
}
use kube_portforward.Flate.{Flate}
use kube_portforward.Mux.Channel.{Mpsc}
use kube_portforward.Mux.Commands.{MuxCommand}
use kube_portforward.Mux.Writer.Loop.{
  write_batch_cap, WriterTask, Found, receive, writer_turn, writer_loop,
}
use kube_portforward.Mux.Writer.Queues.{Holds}
use kube_portforward.Mux.Writer.Turns.{
  Served, windows, controls, commands, ticks, writer_turn-Served,
}

-- Nothing is sent to the task.
pub record IsQuiet (found : Found) : Type 0 where
  pub no_windows : found.windows ≡ []
  pub no_controls : found.controls ≡ []
  pub no_commands : found.commands ≡ []
  pub no_late_controls : found.late_controls ≡ []
  pub no_late_commands : found.late_commands ≡ []

abbrev pub AllQuiet : List Found → Type 0
AllQuiet [] = Unit
AllQuiet (found ∷ turns) = IsQuiet found × AllQuiet turns

-- One turn for the window updates, and as many batches of 64 as the other queues need.
unfoldable pub batches : List MuxCommand → ℕ
batches cs = (length cs + (write_batch_cap - 1)) / write_batch_cap

unfoldable pub once_if_any : List MuxCommand → ℕ
once_if_any [] = 0
once_if_any (c ∷ cs) = 1

unfoldable pub turns_needed : List MuxCommand → List MuxCommand → List MuxCommand → ℕ
unfolding once_if_any batches
turns_needed ws cs ds = once_if_any ws + batches cs + batches ds

batches-drop : (cs : List MuxCommand) → cs ≢ [] → batches (drop write_batch_cap cs) + 1 ≤ batches cs
unfolding batches
batches-drop [] h = absurd (h refl)
batches-drop (c ∷ cs) h = omega (arith, length-drop 63 cs)

once_some : (cs : List MuxCommand) → cs ≢ [] → once_if_any cs ≡ 1
unfolding once_if_any
once_some [] h = absurd (h refl)
once_some (c ∷ cs) h = refl

needed_none :
    (ws cs ds : List MuxCommand) → turns_needed ws cs ds ≡ 0 → (ws ≡ []) × (cs ≡ []) × (ds ≡ [])
unfolding turns_needed
needed_none [] [] [] e = (refl, refl, refl)
needed_none [] [] (c ∷ cs) e = absurd (omega arith)
needed_none [] (c ∷ cs) ds e = absurd (omega arith)
needed_none (c ∷ cs) ds es e = absurd (omega arith)

module _ {flate : Flate} {mpsc : Mpsc} where
  unfoldable needed : WriterTask flate mpsc → ℕ
  unfolding turns_needed
  needed t = turns_needed t.window_rx t.control_rx t.cmd_rx

  Holds-needed :
      (ws cs ds : List MuxCommand) (t : WriterTask flate mpsc)
      → Holds ws cs ds t
      → needed t ≡ turns_needed ws cs ds
  unfolding needed
  Holds-needed ws cs ds t (a, b, c) = cc

  Served_needed :
      (found : Found) (t t' : WriterTask flate mpsc)
      → IsQuiet found
      → Served found t t'
      → needed t' ≤ needed t - 1
  unfolding needed
  Served_needed found t t' quiet (windows some' took) =
      omega
        (arith, Holds-needed [] t.control_rx t.cmd_rx t' took.queues, once_some t.window_rx some')
  Served_needed found t t' quiet (controls none' some' took) = omega (
    arith,
    Holds-needed [] (drop write_batch_cap t.control_rx) t.cmd_rx t' took.queues,
    batches-drop t.control_rx some',
  )
  Served_needed found t t' quiet (commands none' none'' some' took) = omega (
    arith,
    Holds-needed [] [] (drop write_batch_cap t.cmd_rx) t' took.queues,
    batches-drop t.cmd_rx some',
  )
  Served_needed found t t' quiet (ticks empty (inl after) token) =
      omega (arith, Holds-needed [] [] [] t' after)
  Served_needed found t t' quiet (ticks empty (inr (a, b, c)) token) =
      omega (
        arith,
        Holds-needed [] [] [] t' (a, b ∙ quiet.no_late_controls, c ∙ quiet.no_late_commands),
      )

  receive_quiet :
      (found : Found) (t : WriterTask flate mpsc)
      → IsQuiet found
      → needed (receive found t) ≡ needed t
  unfolding receive needed
  receive_quiet found t quiet = Holds-needed t.window_rx t.control_rx t.cmd_rx (receive found t) (
    ap (λ l. t.window_rx ++ l) quiet.no_windows ∙ append-nil t.window_rx,
    ap (λ l. t.control_rx ++ l) quiet.no_controls ∙ append-nil t.control_rx,
    ap (λ l. t.cmd_rx ++ l) quiet.no_commands ∙ append-nil t.cmd_rx,
  )

  if_needed :
      (b : Bool) (x y : Bool × WriterTask flate mpsc)
      → (b ≡ true → x.0 ≡ true → needed x.1 ≡ 0)
      → y.0 ≡ false
      → (if b then x else y).0 ≡ true
      → needed (if b then x else y).1 ≡ 0
  if_needed true x y p q e = p refl e
  if_needed false x y p q e = absurd (cc)

  loop_needed :
      (write_timeout : ℕ) (turns : List Found) (t : WriterTask flate mpsc)
      → AllQuiet turns
      → needed t ≤ length turns
      → (writer_loop write_timeout turns t).0 ≡ true
      → needed (writer_loop write_timeout turns t).1 ≡ 0
  unfolding writer_loop
  loop_needed write_timeout [] t quiet h e = omega (arith, h)
  loop_needed write_timeout (found ∷ turns) t (quiet, later) h e =
      let turn = writer_turn write_timeout found t in
      if_needed turn.0 (writer_loop write_timeout turns turn.1) (false, turn.1)
        (λ goes_on more.
          loop_needed write_timeout turns turn.1 later
            (omega (
              arith,
              receive_quiet found t quiet,
              Served_needed found (receive found t) turn.1 quiet
                  (writer_turn-Served write_timeout found t goes_on),
            ))
            more)
        refl e

  -- When nothing more is sent to the writer and its loop goes on, the queues are empty after as many
  -- turns as there are batches of 64 controls and of 64 data commands, and one for the window updates.
  pub writer_loop_empties :
      (write_timeout : ℕ) (turns : List Found) (t : WriterTask flate mpsc)
      → AllQuiet turns
      → turns_needed t.window_rx t.control_rx t.cmd_rx ≤ length turns
      → (writer_loop write_timeout turns t).0 ≡ true
      → Holds [] [] [] (writer_loop write_timeout turns t).1
  unfolding needed
  writer_loop_empties write_timeout turns t quiet h e =
      let t' = (writer_loop write_timeout turns t).1 in
      needed_none t'.window_rx t'.control_rx t'.cmd_rx (loop_needed write_timeout turns t quiet h e)
