-- ===== src/Inflate/Total.antt =====
-- crates/spdy-mux/src/codec.rs: the end of the loop in `decompress_headers`, and the size of its
-- buffer.
use kube_portforward.Prelude.{
  ℕ, zero, suc, ◌+◌, ◌-◌, ◌*◌, ◌≤◌, ◌<◌, ◌≡◌, refl, ◌⊎◌, inl, inr, min, [], ◌∷◌, ◌++◌, Bool, true,
  false, length, drop, arith, length-append, length-drop, Bool-cases, Option-cases, leb, ◌==◌, ◌&&◌,
}
use kube_portforward.Error.{Result, ok, err, invalid_frame, compression}
use kube_portforward.Wire.{Bytes}
use kube_portforward.Frame.{Headers, max_header_block_size}
use kube_portforward.Flate.{
  Flate, FlateLaws, Fits, Flated, flated, failed, Status, status_ok, buf_error, stream_end,
}
use kube_portforward.Headers.{parse_header_block}
use kube_portforward.Dictionary.{spdy_dict}
use kube_portforward.Inflate.{
  grow_header_buffer, make_room, Stream, Again, grow_and_retry, on_status, on_call, decompress_loop,
  decompress_headers,
}

-- The answers of `decompress_headers` on a block that is not empty: what the parser says of at
-- most 2^20 bytes, or one of two errors.
abbrev pub IsAnswer : Result Headers → Type 0
IsAnswer r =
    ((block : Bytes) × (length block ≤ max_header_block_size) × (r ≡ parse_header_block block))
    ⊎ ((r ≡ err (invalid_frame "header block too large")) ⊎ (r ≡ err compression))

grow_bounds :
    (size : ℕ)
    → 0 < size
    → (grow_header_buffer size ≡ err (invalid_frame "header block too large"))
      ⊎ ((size' : ℕ) × (grow_header_buffer size ≡ ok size')
          × (size < size')
          × (size' ≤ max_header_block_size))
unfolding grow_header_buffer
grow_bounds size h = elim (Bool-cases (leb max_header_block_size size)) [
  | inl t ↦ inl (ground arith)
  | inr f ↦ inr (min (size * 2) max_header_block_size, ground arith, ground arith, ground arith)
]

make_room_bounds :
    (cur_out size : ℕ)
    → 0 < size
    → cur_out ≤ size
    → size ≤ max_header_block_size
    → (make_room cur_out size ≡ err (invalid_frame "header block too large"))
      ⊎ ((size' : ℕ) × (make_room cur_out size ≡ ok size')
          × (size ≤ size')
          × (size' ≤ max_header_block_size)
          × (cur_out < size'))
unfolding make_room
make_room_bounds cur_out size h k l = elim (Bool-cases (leb (size - 256) cur_out)) [
  | inl t ↦ elim (grow_bounds size h) [
    | inl e ↦ inl (ground arith)
    | inr (size', e, lt, le) ↦ inr (size', ground arith, ground arith, ground arith, ground arith)
  ]
  | inr f ↦ inr (size, ground arith, ground arith, ground arith, ground arith)
]

abbrev dict_cost : Bool → ℕ
dict_cost true = 0
dict_cost false = 1

-- The loop's invariant, with a measure of what is left below the fuel.
record Ready (fuel : ℕ) (compressed : Bytes) (dict_set : Bool) (cur_in : ℕ) (output : Bytes)
    (size : ℕ) : Type 0 where
  read : cur_in ≤ length compressed
  fits : length output ≤ size
  some_room : 0 < size
  bounded : size ≤ max_header_block_size
  measure :
      length compressed
        - cur_in
        + (max_header_block_size - length output)
        + (max_header_block_size - size)
        + dict_cost dict_set
      < fuel

module _ (flate : Flate) (laws : FlateLaws flate) (compressed : Bytes) where
  -- The next round answers wherever the invariant holds.
  abbrev Answers : ℕ → Again flate → Type 0
  Answers fuel again =
      (s : Stream flate) (cur_in : ℕ) (output : Bytes) (size : ℕ)
      → Ready fuel compressed s.1 cur_in output size
      → IsAnswer (again s cur_in output size).0

  on_status-IsAnswer :
      (fuel : ℕ) (again : Again flate)
      → Answers fuel again
      → (s : Stream flate) (cur_in consumed : ℕ) (output produced : Bytes) (size : ℕ)
        (status : Status)
      → Ready (suc fuel) compressed s.1 cur_in output size
      → length output < size
      → consumed ≤ length compressed - cur_in
      → length produced ≤ size - length output
      → (status ≡ status_ok → 0 < length compressed - cur_in → 0 < consumed + length produced)
      → IsAnswer
          (on_status flate again compressed s
            (cur_in + consumed)
            (output ++ produced)
            size
            (length produced == 0)
            status).0
  unfolding on_status grow_and_retry
  on_status-IsAnswer fuel again ih s cur_in consumed output produced size status_ok r lt c p g =
      elim (Bool-cases (leb (length compressed) (cur_in + consumed) && (length produced == 0))) [
        | inl t ↦
            rw (t, on_status)
              (inl (
                output ++ produced,
                omega (arith, length-append output produced, r.fits, r.bounded),
                refl,
              ))
        | inr f ↦
            rw (f, on_status)
              (ih s (cur_in + consumed) (output ++ produced) size (record {
                read = omega (arith, r.read);
                fits = omega (arith, length-append output produced, r.fits);
                some_room = r.some_room;
                bounded = r.bounded;
                measure = ground (
                  arith,
                  length-append output produced,
                  r.measure,
                  r.fits,
                  r.bounded,
                  r.read,
                  g refl,
                );
              }))
      ]
  on_status-IsAnswer fuel again ih s cur_in consumed output produced size buf_error r lt c p g =
      elim (Bool-cases (leb (length compressed) (cur_in + consumed))) [
        | inl t ↦
            rw (t, on_status)
              (inl (
                output ++ produced,
                omega (arith, length-append output produced, r.fits, r.bounded),
                refl,
              ))
        | inr f ↦
            rw (f, on_status)
              (elim (grow_bounds size r.some_room) [
                | inl e ↦ rw (e, grow_and_retry) (inr (inl refl))
                | inr (size', e, grown, le) ↦
                    rw (e, grow_and_retry)
                      (ih s (cur_in + consumed) (output ++ produced) size' (record {
                        read = omega (arith, r.read);
                        fits = omega (arith, length-append output produced, r.fits);
                        some_room = omega arith;
                        bounded = le;
                        measure = omega (
                          arith,
                          length-append output produced,
                          r.measure,
                          r.fits,
                          r.bounded,
                          r.read,
                        );
                      }))
              ])
      ]
  on_status-IsAnswer fuel again ih s cur_in consumed output produced size stream_end r lt c p g =
      inl
        (output ++ produced, omega (arith, length-append output produced, r.fits, r.bounded), refl)

  on_call-IsAnswer :
      (fuel : ℕ) (again : Again flate)
      → Answers fuel again
      → (dict_set : Bool) (cur_in : ℕ) (output : Bytes) (size : ℕ) (call : Flated flate.Inflater)
      → Ready (suc fuel) compressed dict_set cur_in output size
      → length output < size
      → Fits (drop cur_in compressed) (size - length output) call
      → IsAnswer (on_call flate again compressed dict_set cur_in output size call).0
  unfolding on_call
  on_call-IsAnswer fuel again ih dict_set cur_in output size (flated status consumed produced d) r
        lt f =
      on_status-IsAnswer fuel again ih (d, dict_set) cur_in consumed output produced size status r
        lt (omega (arith, f.0, length-drop cur_in compressed)) f.1
        (λ e h. f.2 e (omega arith) (omega (arith, length-drop cur_in compressed)))
  on_call-IsAnswer fuel again ih dict_set cur_in output size (failed false consumed produced d) r lt
        f =
      inr (inr refl)
  on_call-IsAnswer fuel again ih true cur_in output size (failed true consumed produced d) r lt f =
      inr (inr refl)
  on_call-IsAnswer fuel again ih false cur_in output size (failed true consumed produced d) r lt f =
      elim (Option-cases (flate.inflate_dictionary d spdy_dict)) [
        | inl e ↦ rw (e, on_call) (inr (inr refl))
        | inr (d', e) ↦
            rw (e, on_call)
              (ih (d', true) (cur_in + consumed) (output ++ produced) size
                (record {
                  read = omega (arith, r.read, f.0, length-drop cur_in compressed);
                  fits = omega (arith, length-append output produced, r.fits, f.1);
                  some_room = r.some_room;
                  bounded = r.bounded;
                  measure =
                      omega (arith, length-append output produced, r.measure, r.fits, r.bounded);
                }))
      ]

  decompress_loop-IsAnswer : (fuel : ℕ) → Answers fuel (decompress_loop flate fuel compressed)
  unfolding decompress_loop
  decompress_loop-IsAnswer zero s cur_in output size r = absurd (omega (arith, r.measure))
  decompress_loop-IsAnswer (suc fuel) s cur_in output size r =
      elim (make_room_bounds (length output) size r.some_room r.fits r.bounded) [
        | inl e ↦ rw (e, decompress_loop) (inr (inl refl))
        | inr (size', e, grown, le, room) ↦
            rw (e, decompress_loop)
              (on_call-IsAnswer fuel (decompress_loop flate fuel compressed)
                (decompress_loop-IsAnswer fuel) s.1 cur_in output size' _
                (record {
                  read = r.read;
                  fits = omega (arith, r.fits);
                  some_room = omega arith;
                  bounded = le;
                  measure = omega (arith, r.measure, r.bounded);
                })
                room (laws.decompress-Fits s.0 (drop cur_in compressed) (size' - length output)))
      ]

module _ (flate : Flate) (laws : FlateLaws flate) where
  -- Over a zlib that keeps its documented contract, decompressing a block that is not empty
  -- returns: with what the header parser says of at most 2^20 bytes of output, or with one of the
  -- two errors "header block too large" and compression. It never runs on for ever, and no input,
  -- however well compressed, is inflated past the bound.
  pub decompress_headers-IsAnswer :
      (s : Stream flate) (compressed : Bytes)
      → 0 < length compressed
      → IsAnswer (decompress_headers flate s compressed).0
  unfolding decompress_headers
  decompress_headers-IsAnswer s [] h = absurd (omega arith)
  decompress_headers-IsAnswer s (b ∷ bs) h =
      decompress_loop-IsAnswer flate laws (b ∷ bs) _ s 0 []
        (min (length (b ∷ bs) * 4 + 1024) max_header_block_size)
        (record {
          read = omega arith;
          fits = omega arith;
          some_room = omega arith;
          bounded = omega arith;
          measure = start s.1;
        })
    where
      start :
          (dict_set : Bool)
          → length (b ∷ bs)
              - 0
              + (max_header_block_size - 0)
              + (max_header_block_size - min (length (b ∷ bs) * 4 + 1024) max_header_block_size)
              + dict_cost dict_set
            < length (b ∷ bs) + (2 * max_header_block_size + 2)
      start true = omega arith
      start false = omega arith
