-- ===== src/Mux/Reader/Ends.antt =====
-- crates/spdy-mux/src/mux/reader.rs: the end of the reader's inner loop.
use kube_portforward.Prelude.{
  ℕ, zero, suc, ◌+◌, ◌≤◌, ◌<◌, ◌≡◌, ◌≢◌, inl, inr, refl, ap, ◌∙◌, Bool, true, false, Option, none,
  some, Bool-cases, length, drop, ltb, leb, arith, length-drop,
}
use kube_portforward.Error.{Result, ok, err, frame_too_large}
use kube_portforward.Wire.{Bytes}
use kube_portforward.Frame.{Frame}
use kube_portforward.Flate.{Flate}
use kube_portforward.Codec.{decode_frame, payload_len}
use kube_portforward.Codec.Sizes.{is_too_large, decode_frame-too_large, decode_frame_shrinks}
use kube_portforward.Mux.Channel.{Mpsc}
use kube_portforward.Mux.Reader.{ReaderContext, route_frame}
use kube_portforward.Mux.Reader.Loop.{
  Exit, out_of_fuel, Drained, Next, after_route, skip_frame, on_decoded, drain, drain_all,
}
use kube_portforward.Mux.Reader.Rounds.{drain_short, drain-round}

abbrev settled : Exit → Bool
settled out_of_fuel = false
settled _ = true

module _ {mpsc : Mpsc} {flate : Flate} where
  -- A way to go on that comes to an end on every buffer that is shorter by a header.
  abbrev Settles : ℕ → Next mpsc flate → Type 0
  Settles n next =
      (ctx : ReaderContext mpsc flate) (buf : Bytes)
      → length buf + 8 ≤ n
      → settled (next ctx buf).exit ≡ true

  after_route-Settles :
      (n : ℕ) (next : Next mpsc flate)
      → Settles n next
      → (buf : Bytes) → length buf + 8 ≤ n
      → (r : Result (Unit {0}) × ReaderContext mpsc flate)
      → settled (after_route next buf r).exit ≡ true
  unfolding after_route
  after_route-Settles n next h buf k (ok u, ctx) = h ctx buf k
  after_route-Settles n next h buf k (err e, ctx) = refl

  skip_frame-Settles :
      (n : ℕ) (next : Next mpsc flate)
      → Settles n next
      → (buf : Bytes) → length buf ≤ n
      → (stream_id : ℕ) (ctx : ReaderContext mpsc flate)
      → settled (skip_frame next buf stream_id ctx).exit ≡ true
  unfolding skip_frame
  skip_frame-Settles n next h buf k stream_id ctx =
      elim (Bool-cases (leb (8 + payload_len buf) (length buf))) [
        | inl t ↦
            rw (t, skip_frame)
              (h _ (drop (8 + payload_len buf) buf)
                (ground (arith, length-drop (8 + payload_len buf) buf)))
        | inr f ↦ rw (f, skip_frame) refl
      ]

  on_decoded-Settles :
      (n : ℕ) (next : Next mpsc flate)
      → Settles n next
      → (r : Result (Option Frame)) (buf : Bytes) (ctx : ReaderContext mpsc flate)
      → ((f : Frame) → r ≡ ok (some f) → length buf + 8 ≤ n)
      → (is_too_large r ≡ true → length buf ≤ n)
      → settled (on_decoded next r buf ctx).exit ≡ true
  unfolding on_decoded
  on_decoded-Settles n next h (ok none) buf ctx k l = refl
  on_decoded-Settles n next h (ok (some f)) buf ctx k l =
      after_route-Settles n next h buf (k f refl) (route_frame f ctx)
  on_decoded-Settles n next h (err (frame_too_large a b c)) buf ctx k l =
      skip_frame-Settles n next h buf (l refl) a ctx
  on_decoded-Settles n next h (err e) buf ctx k l = refl

  drain_settles :
      (fuel : ℕ) (ctx : ReaderContext mpsc flate) (buf : Bytes)
      → length buf < fuel
      → settled (drain fuel ctx buf).exit ≡ true
  drain_settles zero ctx buf h = absurd (omega arith)
  drain_settles (suc fuel) ctx buf h = elim (Bool-cases (ltb (length buf) 8)) [
    | inl t ↦ ap (λ d. settled (Drained.exit d)) (drain_short fuel ctx buf (ground arith))
    | inr t ↦
        ap (λ d. settled (Drained.exit d)) (drain-round fuel ctx buf (ground arith))
        ∙ on_decoded-Settles (length buf) (drain fuel)
            (λ ctx' buf' l. drain_settles fuel ctx' buf' (omega arith))
            (decode_frame ctx.codec buf).result _ _ (λ f e. decode_frame_shrinks ctx.codec buf f e)
            (λ e. omega (arith, ap length (decode_frame-too_large ctx.codec buf e).1))
  ]

  -- The reader's inner loop comes to one of its three ends on every buffer: the fuel that the model
  -- gives it is never used up.
  drain_all_ends :
      (ctx : ReaderContext mpsc flate) (buf : Bytes) → (drain_all ctx buf).exit ≢ out_of_fuel
  unfolding drain_all
  drain_all_ends ctx buf e = cc (e, drain_settles (suc (length buf)) ctx buf (omega arith))
