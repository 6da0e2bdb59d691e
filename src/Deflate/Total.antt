-- ===== src/Deflate/Total.antt =====
-- crates/spdy-mux/src/codec.rs: the end of the loop in `compress_headers`.
use kube_portforward.Prelude.{
  ℕ, zero, suc, ◌+◌, ◌-◌, ◌≤◌, ◌<◌, ◌≡◌, ◌≢◌, refl, inl, inr, [], ◌∷◌, ◌++◌, ◌&&◌, length, drop,
  arith, length-append, length-drop, Bool-cases, Option-cases, leb, ◌==◌,
}
use kube_portforward.Error.{Result, err, out_of_fuel}
use kube_portforward.Wire.{Bytes}
use kube_portforward.Frame.{Headers}
use kube_portforward.Flate.{
  Flate, FlateLaws, Fits, Compresses, Flated, flated, failed, Status, status_ok, buf_error,
  stream_end,
}
use kube_portforward.Headers.{header_block}
use kube_portforward.Deflate.{
  resize, Stream, Again, on_status, on_call, compress_loop, with_dictionary, compress_headers,
}

drop-nil : (m : ℕ) → drop {A = ℕ} m [] ≡ []
drop-nil zero = refl
drop-nil (suc m) = refl

drop-drop : (m n : ℕ) (xs : Bytes) → drop m (drop n xs) ≡ drop (n + m) xs
drop-drop m zero xs = ground arith
drop-drop m (suc n) [] = ground (arith, drop-nil m, drop-nil (suc n + m))
drop-drop m (suc n) (x ∷ xs) =
    let e : suc n + m ≡ suc (n + m) = omega arith in rw e (drop-drop m n xs)

module _ (flate : Flate) (laws : FlateLaws flate) (block : Bytes) where
  -- The loop's invariant, with a measure of what is left below the fuel.
  record Ready (fuel : ℕ) (d : flate.Deflater) (total_in : ℕ) (output : Bytes) (size : ℕ)
      : Type 0 where
    read : total_in ≤ length block
    some_room : length output < size
    large : 64 < size
    measure : length block - total_in + flate.deflate_bound d (drop total_in block) < fuel

  abbrev Ends : Result Bytes → Type 0
  Ends r = r ≢ err out_of_fuel

  abbrev AllEnd : ℕ → Again flate → Type 0
  AllEnd fuel again =
      (d : flate.Deflater) (total_in : ℕ) (output : Bytes) (size : ℕ)
      → Ready fuel d total_in output size
      → Ends (again d total_in output size).0

  -- A round that read or wrote leaves less to do.
  next-Ready :
      (fuel : ℕ) (d d' : flate.Deflater) (total_in consumed : ℕ) (output produced : Bytes)
      (size : ℕ) (status : Status)
      → Ready (suc fuel) d total_in output size
      → Fits (drop total_in block) (size - length output) (flated status consumed produced d')
      → Compresses flate d
          (drop total_in block)
          (size - length output)
          (flated status consumed produced d')
      → 0 < consumed + length produced
      → Ready fuel d'
          (total_in + consumed)
          (output ++ produced)
          (resize (length (output ++ produced)) size)
  unfolding resize
  next-Ready fuel d d' total_in consumed output produced size _ r f c progress = record {
    read = omega (arith, f.0, r.read, length-drop total_in block);
    some_room = ground (arith, length-append output produced, f.1, r.some_room, r.large);
    large = ground (arith, r.large);
    measure =
        rw (← drop-drop consumed total_in block)
          (omega (arith, f.0, r.read, r.measure, length-drop total_in block, c.0, progress));
  }

  on_status-Ends :
      (fuel : ℕ) (again : Again flate)
      → AllEnd fuel again
      → (d d' : flate.Deflater) (total_in consumed : ℕ) (output produced : Bytes) (size : ℕ)
        (status : Status)
      → Ready (suc fuel) d total_in output size
      → Fits (drop total_in block) (size - length output) (flated status consumed produced d')
      → Compresses flate d
          (drop total_in block)
          (size - length output)
          (flated status consumed produced d')
      → Ends
          (on_status flate again block d'
            (total_in + consumed)
            (output ++ produced)
            size
            (length produced == 0)
            status).0
  unfolding on_status
  on_status-Ends fuel again ih d d' total_in consumed output produced size stream_end r f c =
      λ e. cc
  on_status-Ends fuel again ih d d' total_in consumed output produced size status_ok r f c =
      elim (Bool-cases (leb (length block) (total_in + consumed) && (length produced == 0))) [
        | inl t ↦ rw (t, on_status) (λ e. cc)
        | inr t ↦
            rw (t, on_status)
              (ih d' _ _ _ (
                next-Ready fuel d d' total_in consumed output produced size status_ok r f c
                  (ground (arith, length-drop total_in block, f.2 refl, r.some_room, r.read))))
      ]
  on_status-Ends fuel again ih d d' total_in consumed output produced size buf_error r f c =
      elim (Bool-cases (leb (length block) (total_in + consumed) && (length produced == 0))) [
        | inl t ↦ rw (t, on_status) (λ e. cc)
        | inr t ↦ absurd (ground (arith, length-drop total_in block, c.1 refl, r.some_room, r.read))
      ]

  on_call-Ends :
      (fuel : ℕ) (again : Again flate)
      → AllEnd fuel again
      → (d : flate.Deflater) (total_in : ℕ) (output : Bytes) (size : ℕ)
        (call : Flated flate.Deflater)
      → Ready (suc fuel) d total_in output size
      → Fits (drop total_in block) (size - length output) call
      → Compresses flate d (drop total_in block) (size - length output) call
      → Ends (on_call flate again block total_in output size call).0
  unfolding on_call
  on_call-Ends fuel again ih d total_in output size (flated status consumed produced d') r f c =
      on_status-Ends fuel again ih d d' total_in consumed output produced size status r f c
  on_call-Ends fuel again ih d total_in output size (failed needs consumed produced d') r f c =
      λ e. cc

  compress_loop-Ends : (fuel : ℕ) → AllEnd fuel (compress_loop flate fuel block)
  unfolding compress_loop
  compress_loop-Ends zero d total_in output size r = absurd (omega (arith, r.measure))
  compress_loop-Ends (suc fuel) d total_in output size r =
      on_call-Ends fuel (compress_loop flate fuel block) (compress_loop-Ends fuel) d total_in output
        size _ r (laws.compress-Fits d (drop total_in block) (size - length output))
        (laws.compress-Compresses d (drop total_in block) (size - length output))

module _ (flate : Flate) (laws : FlateLaws flate) where
  -- Over a zlib that keeps its documented contract, compressing a header list returns with bytes
  -- or with a zlib error: the loop always comes to its end.
  compress_headers_ends :
      (s : Stream flate) (headers : Headers)
      → (compress_headers flate s headers).0 ≢ err out_of_fuel
  unfolding compress_headers
  compress_headers_ends s headers = elim (Option-cases (with_dictionary flate s)) [
    | inl e ↦ rw (e, compress_headers) (λ e'. cc)
    | inr (d, e) ↦
        rw (e, compress_headers)
          (compress_loop-Ends flate laws (header_block headers) _ d 0 [] _ (record {
            read = omega arith;
            some_room = omega arith;
            large = omega arith;
            measure = omega arith;
          }))
  ]
