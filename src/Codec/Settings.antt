-- ===== src/Codec/Settings.antt =====
-- crates/spdy-mux/src/codec.rs: the entries of a SETTINGS frame.
use kube_portforward.Prelude.{
  ℕ, zero, suc, true, false, ◌%◌, ◌^◌, List, [], ◌∷◌, ◌++◌, Option, none, some, length, drop, ltb,
  ◌==◌, ◌/◌, if◌then◌else◌,
}
use kube_portforward.Wire.{Bytes, u32_bytes, u32_at, u24_at}
use kube_portforward.Frame.{
  Frame, settings, settings_initial_window_size, settings_max_concurrent_streams,
}

-- flags (1 byte) = 0, id (3 bytes), value (4 bytes).
abbrev pub encode_entry : ℕ × ℕ → Bytes
encode_entry (id, value) =
    (0 ∷ (id / 2 ^ 16 % 256) ∷ (id / 2 ^ 8 % 256) ∷ (id % 256) ∷ []) ++ u32_bytes value

unfoldable pub encode_entries : List (ℕ × ℕ) → Bytes
encode_entries [] = []
encode_entries (e ∷ es) = encode_entry e ++ encode_entries es

-- The three variables that the loop assigns.
pub record Values : Type 0 where
  pub initial_window_size : Option ℕ
  pub max_concurrent_streams : Option ℕ
  pub max_frame_size : Option ℕ

abbrev pub no_values : Values
no_values = record {
  initial_window_size = none;
  max_concurrent_streams = none;
  max_frame_size = none;
}

-- `match id { … }`
unfoldable pub assign : ℕ → ℕ → Values → Values
assign id value vs =
    if id == settings_initial_window_size
    then record vs { initial_window_size = some value }
    else if id == settings_max_concurrent_streams
    then record vs { max_concurrent_streams = some value }
    else if id == 5
    then record vs { max_frame_size = some value }
    else vs

-- The loop over `0..num_entries`; `bs` is the payload from `offset` on.
unfoldable pub read_entries : ℕ → Bytes → Values → Values
unfolding assign
read_entries zero bs vs = vs
read_entries (suc n) bs vs = elim (ltb (length bs) 8) [
  | true ↦ vs
  | false ↦ read_entries n (drop 8 bs) (assign (u24_at bs 1) (u32_at bs 4) vs)
]

abbrev as_frame : Values → Frame
as_frame vs = settings vs.initial_window_size vs.max_concurrent_streams vs.max_frame_size

unfoldable pub read_settings : Bytes → Frame
unfolding read_entries
read_settings payload =
    if ltb (length payload) 4
    then as_frame no_values
    else as_frame (read_entries (u32_at payload 0) (drop 4 payload) no_values)
