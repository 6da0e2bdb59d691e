-- ===== src/Mux/Reader/Rounds.antt =====
-- crates/spdy-mux/src/mux/reader.rs: one round of the reader's inner loop, and its fuel.
use kube_portforward.Prelude.{
  ℕ, zero, suc, ◌+◌, ◌≤◌, ◌<◌, ◌≡◌, inl, inr, refl, ap, sym, ◌∙◌, true, Option, none, some,
  Bool-cases, length, drop, ltb, leb, arith, length-drop,
}
use kube_portforward.Error.{Result, ok, err, frame_too_large}
use kube_portforward.Wire.{Bytes}
use kube_portforward.Frame.{Frame}
use kube_portforward.Flate.{Flate}
use kube_portforward.Codec.{decode_frame, payload_len}
use kube_portforward.Codec.Sizes.{is_too_large, decode_frame-too_large, decode_frame_shrinks}
use kube_portforward.Mux.Channel.{Mpsc}
use kube_portforward.Mux.Reader.{ReaderContext, route_frame}
use kube_portforward.Mux.Reader.Loop.{
  waiting, Drained, Next, after_route, skip_frame, on_decoded, drain, drain_all,
}

module _ {mpsc : Mpsc} {flate : Flate} where
  -- One round, with the buffer and the codec's answer kept together.
  abbrev pub round : Next mpsc flate → ReaderContext mpsc flate → Bytes → Drained mpsc flate
  round next ctx buf =
      let d = decode_frame ctx.codec buf in
      on_decoded next d.result d.buf (record ctx { codec = d.codec })

  pub drain_short :
      (fuel : ℕ) (ctx : ReaderContext mpsc flate) (buf : Bytes)
      → length buf < 8
      → drain (suc fuel) ctx buf ≡ record { exit = waiting; context = ctx; buf = buf }
  unfolding drain
  drain_short fuel ctx buf h = ground arith

  pub drain-round :
      (fuel : ℕ) (ctx : ReaderContext mpsc flate) (buf : Bytes)
      → 8 ≤ length buf
      → drain (suc fuel) ctx buf ≡ round (drain fuel) ctx buf
  unfolding drain
  drain-round fuel ctx buf h = elim (Bool-cases (ltb (length buf) 8)) [
    | inl t ↦ absurd (ground arith)
    | inr f ↦ rw (f, drain) refl
  ]

  -- Two ways to go on that agree on every buffer that is shorter by a header.
  abbrev Agree : ℕ → Next mpsc flate → Next mpsc flate → Type 0
  Agree n next next' =
      (ctx : ReaderContext mpsc flate) (buf : Bytes)
      → length buf + 8 ≤ n
      → next ctx buf ≡ next' ctx buf

  after_route_agrees :
      (n : ℕ) (next next' : Next mpsc flate)
      → Agree n next next'
      → (buf : Bytes) → length buf + 8 ≤ n
      → (r : Result (Unit {0}) × ReaderContext mpsc flate)
      → after_route next buf r ≡ after_route next' buf r
  unfolding after_route
  after_route_agrees n next next' h buf k (ok u, ctx) = h ctx buf k
  after_route_agrees n next next' h buf k (err e, ctx) = refl

  skip_frame_agrees :
      (n : ℕ) (next next' : Next mpsc flate)
      → Agree n next next'
      → (buf : Bytes) → length buf ≤ n
      → (stream_id : ℕ) (ctx : ReaderContext mpsc flate)
      → skip_frame next buf stream_id ctx ≡ skip_frame next' buf stream_id ctx
  unfolding skip_frame
  skip_frame_agrees n next next' h buf k stream_id ctx =
      elim (Bool-cases (leb (8 + payload_len buf) (length buf))) [
        | inl t ↦
            rw (t, skip_frame)
              (h _ (drop (8 + payload_len buf) buf)
                (ground (arith, length-drop (8 + payload_len buf) buf)))
        | inr f ↦ rw (f, skip_frame) refl
      ]

  on_decoded_agrees :
      (n : ℕ) (next next' : Next mpsc flate)
      → Agree n next next'
      → (r : Result (Option Frame)) (buf : Bytes) (ctx : ReaderContext mpsc flate)
      → ((f : Frame) → r ≡ ok (some f) → length buf + 8 ≤ n)
      → (is_too_large r ≡ true → length buf ≤ n)
      → on_decoded next r buf ctx ≡ on_decoded next' r buf ctx
  unfolding on_decoded
  on_decoded_agrees n next next' h (ok none) buf ctx k l = refl
  on_decoded_agrees n next next' h (ok (some f)) buf ctx k l =
      after_route_agrees n next next' h buf (k f refl) (route_frame f ctx)
  on_decoded_agrees n next next' h (err (frame_too_large a b c)) buf ctx k l =
      skip_frame_agrees n next next' h buf (l refl) a ctx
  on_decoded_agrees n next next' h (err e) buf ctx k l = refl

  round_agrees :
      (next next' : Next mpsc flate) (ctx : ReaderContext mpsc flate) (buf : Bytes)
      → Agree (length buf) next next'
      → round next ctx buf ≡ round next' ctx buf
  round_agrees next next' ctx buf h =
      on_decoded_agrees (length buf) next next' h (decode_frame ctx.codec buf).result _ _
        (λ f e. decode_frame_shrinks ctx.codec buf f e)
        (λ e. omega (arith, ap length (decode_frame-too_large ctx.codec buf e).1))

  -- Any fuel above the length of the buffer gives the same.
  drain_fuel :
      (f g : ℕ) (ctx : ReaderContext mpsc flate) (buf : Bytes)
      → length buf < f
      → length buf < g
      → drain f ctx buf ≡ drain g ctx buf
  drain_fuel zero g ctx buf h k = absurd (omega arith)
  drain_fuel (suc f) zero ctx buf h k = absurd (omega arith)
  drain_fuel (suc f) (suc g) ctx buf h k = elim (Bool-cases (ltb (length buf) 8)) [
    | inl t ↦ drain_short f ctx buf (ground arith) ∙ sym (drain_short g ctx buf (ground arith))
    | inr t ↦
        drain-round f ctx buf (ground arith)
        ∙ round_agrees (drain f) (drain g) ctx buf
            (λ ctx' buf' l. drain_fuel f g ctx' buf' (omega arith) (omega arith))
        ∙ sym (drain-round g ctx buf (ground arith))
  ]

  drain_all_short :
      (ctx : ReaderContext mpsc flate) (buf : Bytes)
      → length buf < 8
      → drain_all ctx buf ≡ record { exit = waiting; context = ctx; buf = buf }
  unfolding drain_all
  drain_all_short ctx buf h = drain_short (length buf) ctx buf h

  pub drain_all-round :
      (ctx : ReaderContext mpsc flate) (buf : Bytes)
      → 8 ≤ length buf
      → drain_all ctx buf ≡ round drain_all ctx buf
  unfolding drain_all
  drain_all-round ctx buf h =
      drain-round (length buf) ctx buf h
      ∙ round_agrees (drain (length buf)) drain_all ctx buf (λ ctx' buf' l.
        drain_fuel (length buf) (suc (length buf')) ctx' buf' (omega arith) (omega arith))
