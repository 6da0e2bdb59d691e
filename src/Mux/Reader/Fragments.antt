-- ===== src/Mux/Reader/Fragments.antt =====
-- crates/spdy-mux/src/mux/reader.rs: the reader's inner loop on bytes that are cut into messages.
use kube_portforward.Prelude.{
  ℕ, zero, suc, ◌+◌, ◌≤◌, ◌<◌, ◌≡◌, ◌≢◌, ◌⊎◌, inl, inr, refl, ap, ◌∙◌, ◌++◌, Bool, true, false,
  Option, none, some, Bool-cases, length, drop, ltb, leb, arith, length-append, length-drop,
  drop-append,
}
use kube_portforward.Error.{Result, ok, err, frame_too_large}
use kube_portforward.Wire.{Bytes}
use kube_portforward.Frame.{Frame}
use kube_portforward.Flate.{Flate}
use kube_portforward.Codec.{decode_frame, payload_len}
use kube_portforward.Codec.Decode.{decode_frame-append, payload_len-append}
use kube_portforward.Codec.Sizes.{
  is_too_large, decode_frame-none, decode_frame-too_large, decode_frame_shrinks,
}
use kube_portforward.Mux.Channel.{Mpsc}
use kube_portforward.Mux.Reader.{ReaderContext, route_frame}
use kube_portforward.Mux.Reader.Loop.{
  Exit, waiting, Next, after_route, skip_frame, on_decoded, drain, drain_all,
}
use kube_portforward.Mux.Reader.Rounds.{drain_short, drain-round, drain_all-round}

undecided : (r : Result (Option Frame)) → (r ≡ ok none) ⊎ (r ≢ ok none)
undecided (ok none) = inl refl
undecided (ok (some f)) = inr (λ e. cc)
undecided (err x) = inr (λ e. cc)

abbrev stopped : Exit → Bool
stopped waiting = false
stopped _ = true

module _ {mpsc : Mpsc} {flate : Flate} where
  -- A way to go on that takes up its work where it waited when more bytes are there.
  abbrev Resumes : ℕ → Bytes → Next mpsc flate → Type 0
  Resumes n more next =
      (ctx : ReaderContext mpsc flate) (buf : Bytes)
      → length buf + 8 ≤ n
      → (next ctx buf).exit ≡ waiting
      → drain_all ctx (buf ++ more) ≡ drain_all (next ctx buf).context ((next ctx buf).buf ++ more)

  after_route-Resumes :
      (n : ℕ) (more : Bytes) (next : Next mpsc flate)
      → Resumes n more next
      → (buf : Bytes) → length buf + 8 ≤ n
      → (r : Result (Unit {0}) × ReaderContext mpsc flate) → (after_route next buf r).exit ≡ waiting
      → after_route drain_all (buf ++ more) r
        ≡ drain_all (after_route next buf r).context ((after_route next buf r).buf ++ more)
  unfolding after_route
  after_route-Resumes n more next h buf k (ok u, ctx) e = h ctx buf k e
  after_route-Resumes n more next h buf k (err x, ctx) e = absurd (cc e)

  skip_frame-Resumes :
      (n : ℕ) (more : Bytes) (next : Next mpsc flate)
      → Resumes n more next
      → (buf : Bytes) → 8 ≤ length buf
      → length buf ≤ n
      → (stream_id : ℕ) (ctx : ReaderContext mpsc flate)
      → (skip_frame next buf stream_id ctx).exit ≡ waiting
      → skip_frame drain_all (buf ++ more) stream_id ctx
        ≡ drain_all
            (skip_frame next buf stream_id ctx).context
            ((skip_frame next buf stream_id ctx).buf ++ more)
  unfolding skip_frame
  skip_frame-Resumes n more next h buf j k stream_id ctx =
      elim (Bool-cases (leb (8 + payload_len buf) (length buf))) [
        | inl t ↦
            rw (t, long t, rest t, skip_frame)
              (h _ (drop (8 + payload_len buf) buf)
                (ground (arith, length-drop (8 + payload_len buf) buf)))
        | inr f ↦ rw (f, skip_frame) (λ e. absurd (cc e))
      ]
    where
      long :
          leb (8 + payload_len buf) (length buf) ≡ true
          → leb (8 + payload_len (buf ++ more)) (length (buf ++ more)) ≡ true
      long t = ground (arith, length-append buf more, payload_len-append ctx.codec buf more j)

      rest :
          leb (8 + payload_len buf) (length buf) ≡ true
          → drop (8 + payload_len (buf ++ more)) (buf ++ more)
            ≡ drop (8 + payload_len buf) buf ++ more
      rest t =
          ap (λ n. drop (8 + n) (buf ++ more)) (payload_len-append ctx.codec buf more j)
          ∙ drop-append (8 + payload_len buf) buf more (ground arith)

  on_decoded-Resumes :
      (n : ℕ) (more : Bytes) (next : Next mpsc flate)
      → Resumes n more next
      → (r : Result (Option Frame)) (buf : Bytes) (ctx : ReaderContext mpsc flate) → r ≢ ok none
      → ((f : Frame) → r ≡ ok (some f) → length buf + 8 ≤ n)
      → (is_too_large r ≡ true → (8 ≤ length buf) × (length buf ≤ n))
      → (on_decoded next r buf ctx).exit ≡ waiting
      → on_decoded drain_all r (buf ++ more) ctx
        ≡ drain_all (on_decoded next r buf ctx).context ((on_decoded next r buf ctx).buf ++ more)
  unfolding on_decoded
  on_decoded-Resumes n more next h (ok none) buf ctx d k l e = absurd (d refl)
  on_decoded-Resumes n more next h (ok (some f)) buf ctx d k l e =
      after_route-Resumes n more next h buf (k f refl) (route_frame f ctx) e
  on_decoded-Resumes n more next h (err (frame_too_large a b c)) buf ctx d k l e =
      skip_frame-Resumes n more next h buf (l refl).0 (l refl).1 a ctx e
  on_decoded-Resumes n more next h (err x) buf ctx d k l e = absurd (cc e)

  drain_resumes :
      (fuel : ℕ) (more : Bytes) (ctx : ReaderContext mpsc flate) (buf : Bytes)
      → length buf < fuel
      → (drain fuel ctx buf).exit ≡ waiting
      → drain_all ctx (buf ++ more)
        ≡ drain_all (drain fuel ctx buf).context ((drain fuel ctx buf).buf ++ more)
  unfolding on_decoded
  drain_resumes zero more ctx buf h = absurd (omega arith)
  drain_resumes (suc fuel) more ctx buf h = elim (Bool-cases (ltb (length buf) 8)) [
    | inl t ↦ rw (drain_short fuel ctx buf (ground arith)) (λ e. refl)
    | inr t ↦ elim (undecided (decode_frame ctx.codec buf).result) [
      | inl idle ↦
          rw
            (
              drain-round fuel ctx buf (ground arith),
              decode_frame-none ctx.codec buf idle,
              on_decoded,
            )
            (λ e. refl)
      | inr busy ↦
          rw
            (
              drain-round fuel ctx buf (ground arith),
              drain_all-round ctx (buf ++ more) (ground (arith, length-append buf more)),
              decode_frame-append ctx.codec buf more busy,
            )
            (on_decoded-Resumes (length buf) more (drain fuel)
              (λ ctx' buf' l. drain_resumes fuel more ctx' buf' (omega arith))
              (decode_frame ctx.codec buf).result _ _ busy
              (λ f e. decode_frame_shrinks ctx.codec buf f e)
              (λ e. (
                omega (
                  arith,
                  ap length (decode_frame-too_large ctx.codec buf e).1,
                  (decode_frame-too_large ctx.codec buf e).0,
                ),
                omega (arith, ap length (decode_frame-too_large ctx.codec buf e).1),
              )))
    ]
  ]

  -- If the reader's inner loop has taken what it can of a buffer and waits for more, then handling
  -- the bytes that come next from there on is the same as handling all the bytes at once: what the
  -- tasks are told and what stays in the buffer do not depend on how the bytes were cut.
  pub drain_all-append :
      (ctx : ReaderContext mpsc flate) (buf more : Bytes)
      → (drain_all ctx buf).exit ≡ waiting
      → drain_all ctx (buf ++ more)
        ≡ drain_all (drain_all ctx buf).context ((drain_all ctx buf).buf ++ more)
  unfolding drain_all
  drain_all-append ctx buf more e = drain_resumes (suc (length buf)) more ctx buf (omega arith) e
