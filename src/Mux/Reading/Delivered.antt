-- ===== src/Mux/Reading/Delivered.antt =====
-- crates/spdy-mux/src/stream.rs: the bytes that the receive path hands out.
use kube_portforward.Prelude.{
  ℕ, zero, suc, ◌≤◌, min, ◌≡◌, refl, ap, sym, ◌∙◌, List, [], ◌∷◌, ◌++◌, Bool, true, false, Option,
  none, some, inl, inr, Bool-cases, length, take, drop, leb, ltb, ◌==◌, if◌then◌else◌, arith,
  append_assoc, take-append-drop, length-drop,
}
use kube_portforward.Wire.{Bytes}
use kube_portforward.Mux.Writing.{Polled, pending, ready, broken_pipe}
use kube_portforward.Mux.Reading.{
  Recv, received, closed, not_yet, ReadSide, read_buffered, read_received, read_polled,
  poll_read_channel, fill_polled, fill_buffered, poll_fill_buf_channel, consume_channel_buf,
}

-- The bytes still to come from the receiver, up to its end.
abbrev pub incoming : List Recv → Bytes
incoming [] = []
incoming (received chunk ∷ rx) = chunk ++ incoming rx
incoming (closed ∷ rx) = []
incoming (not_yet ∷ rx) = incoming rx

abbrev pub buffered : Option Bytes → Bytes
buffered none = []
buffered (some bytes) = bytes

-- All that a stream has still to hand out.
abbrev pub left : ReadSide → Bytes
left s = buffered s.read_buf ++ (if s.read_eof then [] else incoming s.rx)

-- At the end of the stream nothing is buffered.
abbrev pub IsSettled : ReadSide → Type 0
IsSettled s = s.read_eof ≡ true → s.read_buf ≡ none

abbrev pub handed : Polled Bytes → Bytes
handed pending = []
handed (ready bytes) = bytes
handed broken_pipe = []

-- The bytes handed out, and the state they leave, account for all that there was.
abbrev pub Delivers : ReadSide → Bytes → ReadSide → Type 0
Delivers s out s' = (left s ≡ out ++ left s') × IsSettled s'

drop_past : (n : ℕ) (xs : Bytes) → length xs ≤ n → drop n xs ≡ []
drop_past zero [] h = refl
drop_past zero (x ∷ xs) h = absurd (omega arith)
drop_past (suc n) [] h = refl
drop_past (suc n) (x ∷ xs) h = drop_past n xs (omega arith)

drop-min : (n : ℕ) (xs : Bytes) → drop (min n (length xs)) xs ≡ drop n xs
drop-min n xs = elim (Bool-cases (leb n (length xs))) [
  | inl e ↦ ap (λ m. drop m xs) (ground arith)
  | inr e ↦
      ap (λ m. drop m xs) (capped e)
      ∙ drop_past (length xs) xs (omega arith)
      ∙ sym (drop_past n xs (ground arith))
]
  where
    capped : leb n (length xs) ≡ false → min n (length xs) ≡ length xs
    capped e = ground arith

take_short : (n : ℕ) (xs rest : Bytes) → xs ++ rest ≡ take n xs ++ (drop n xs ++ rest)
take_short n xs rest =
    ap (λ zs. zs ++ rest) (sym (take-append-drop n xs)) ∙ append_assoc (take n xs) (drop n xs) rest

-- The part of a buffer that is kept is what the caller has not taken.
kept_copied :
    (n : ℕ) (xs : Bytes)
    → buffered (if leb (length xs) n then none else some (drop n xs)) ≡ drop n xs
kept_copied n xs = elim (Bool-cases (leb (length xs) n)) [
  | inl e ↦ rw (e, drop_past n xs (ground arith)) refl
  | inr e ↦ rw (e) refl
]

kept_received :
    (n : ℕ) (xs : Bytes)
    → buffered (if ltb n (length xs) then some (drop n xs) else none) ≡ drop n xs
kept_received n xs = elim (Bool-cases (ltb n (length xs))) [
  | inl e ↦ rw (e) refl
  | inr e ↦ rw (e, drop_past n xs (ground arith)) refl
]

kept_consumed :
    (n : ℕ) (xs : Bytes)
    → buffered (if length (drop n xs) == 0 then none else some (drop n xs)) ≡ drop n xs
kept_consumed n xs = elim (Bool-cases (length (drop n xs) == 0)) [
  | inl e ↦ rw (e, drop_past n xs (ground (arith, length-drop n xs))) refl
  | inr e ↦ rw (e) refl
]

-- The receiver's state is settled while the stream is open.
open-IsSettled : (s : ReadSide) → s.read_eof ≡ false → IsSettled s
open-IsSettled s e k = absurd (cc)

read_buffered-Delivers :
    (s : ReadSide) (remaining : Bytes) (room : ℕ)
    → s.read_eof ≡ false
    → s.read_buf ≡ some remaining
    → Delivers s (handed (read_buffered s remaining room).0) (read_buffered s remaining room).1
unfolding read_buffered
read_buffered-Delivers s remaining room e b =
    let n = min (length remaining) room in
    (
      rw (b, e, kept_copied n remaining) (take_short n remaining (incoming s.rx)),
      open-IsSettled (read_buffered s remaining room).1 e,
    )

read_received-Delivers :
    (rx : List Recv) (chunk : Bytes) (room : ℕ)
    → let s : ReadSide = record { rx = rx; read_buf = none; read_eof = false } in
      (chunk ++ incoming rx
        ≡ handed (read_received s chunk room).0 ++ left (read_received s chunk room).1)
      × IsSettled (read_received s chunk room).1
unfolding read_received
read_received-Delivers rx chunk room =
    let n = min (length chunk) room in
    (
      rw (kept_received n chunk) (take_short n chunk (incoming rx)),
      open-IsSettled
          (read_received (record { rx = rx; read_buf = none; read_eof = false }) chunk room).1 refl,
    )

abbrev empty_side : List Recv → ReadSide
empty_side rx = record { rx = rx; read_buf = none; read_eof = false }

read_polled-Delivers :
    (rx : List Recv) (room : ℕ)
    → Delivers
        (empty_side rx)
        (handed (read_polled (empty_side rx) rx room).0)
        (read_polled (empty_side rx) rx room).1
unfolding read_polled
read_polled-Delivers [] room = (refl, λ e. absurd cc)
read_polled-Delivers (received chunk ∷ rx) room = read_received-Delivers rx chunk room
read_polled-Delivers (closed ∷ rx) room = (refl, λ e. refl)
read_polled-Delivers (not_yet ∷ rx) room = (refl, λ e. absurd cc)

abbrev pub side : List Recv → Option Bytes → Bool → ReadSide
side rx b eof = record { rx = rx; read_buf = b; read_eof = eof }

poll_read_parts :
    (rx : List Recv) (b : Option Bytes) (eof : Bool) (room : ℕ)
    → IsSettled (side rx b eof)
    → Delivers
        (side rx b eof)
        (handed (poll_read_channel (side rx b eof) room).0)
        (poll_read_channel (side rx b eof) room).1
unfolding poll_read_channel
poll_read_parts rx none false room h = read_polled-Delivers rx room
poll_read_parts rx (some remaining) false room h =
    read_buffered-Delivers (side rx (some remaining) false) remaining room refl refl
poll_read_parts rx none true room h = (refl, λ k. refl)
poll_read_parts rx (some remaining) true room h = absurd (cc (h refl))

-- A call of `poll_fill_buf` shows the front of what is left and takes nothing.
abbrev Shows : ReadSide → Polled Bytes → ReadSide → Type 0
Shows s shown s' = (left s ≡ left s') × IsSettled s' × (handed shown ≡ buffered s'.read_buf)

fill_polled-Shows :
    (eof : Bool) (rx : List Recv)
    → (s : ReadSide) → s ≡ record { rx = rx; read_buf = none; read_eof = eof }
    → Shows s (fill_polled eof rx).0 (fill_polled eof rx).1
unfolding fill_polled
fill_polled-Shows true rx s e = rw (e) (refl, (λ k. refl), refl)
fill_polled-Shows false [] s e = rw (e) (refl, (λ k. refl), refl)
fill_polled-Shows false (not_yet ∷ rx) s e = rw (e) (refl, (λ k. refl), refl)
fill_polled-Shows false (closed ∷ rx) s e = rw (e) (refl, (λ k. refl), refl)
fill_polled-Shows false (received [] ∷ rx) s e =
    rw (e) (fill_polled-Shows false rx (empty_side rx) refl)
fill_polled-Shows false (received (b ∷ bs) ∷ rx) s e = rw (e) (refl, (λ k. absurd cc), refl)

fill_parts :
    (rx : List Recv) (b : Option Bytes) (eof : Bool)
    → IsSettled (side rx b eof)
    → Shows
        (side rx b eof)
        (poll_fill_buf_channel (side rx b eof)).0
        (poll_fill_buf_channel (side rx b eof)).1
unfolding poll_fill_buf_channel fill_buffered
fill_parts rx (some (x ∷ xs)) eof h = (refl, h, refl)
fill_parts rx (some []) true h = absurd (cc (h refl))
fill_parts rx (some []) false h = fill_polled-Shows false rx (empty_side rx) refl
fill_parts rx none eof h = fill_polled-Shows eof rx (side rx none eof) refl

consume_parts :
    (rx : List Recv) (b : Option Bytes) (eof : Bool) (amt : ℕ)
    → IsSettled (side rx b eof)
    → Delivers (side rx b eof) (take amt (buffered b)) (consume_channel_buf (side rx b eof) amt)
unfolding consume_channel_buf
consume_parts rx none eof zero h = (refl, h)
consume_parts rx none eof (suc amt) h = (refl, h)
consume_parts rx (some bytes) true amt h = absurd (cc (h refl))
consume_parts rx (some bytes) false amt h = (
  rw (kept_consumed (min amt (length bytes)) bytes, drop-min amt bytes)
      (take_short amt bytes (incoming rx)),
  λ k. absurd cc,
)

-- One call by the reader. A call that fills the buffer then consumes `amt` bytes of what it is
-- shown.
pub data ReadCall : Type 0 where
  reads : ℕ → ReadCall
  fills : ℕ → ReadCall

unfoldable pub call : ReadCall → ReadSide → Bytes × ReadSide
call (reads room) s = (handed (poll_read_channel s room).0, (poll_read_channel s room).1)
call (fills amt) s =
    let (shown, s') = poll_fill_buf_channel s in
    (take amt (handed shown), consume_channel_buf s' amt)

-- All that a list of calls hands out, and the state after it.
unfoldable pub calls : List ReadCall → ReadSide → Bytes × ReadSide
unfolding call
calls [] s = ([], s)
calls (c ∷ cs) s = let (out, s') = call c s in let (outs, s'') = calls cs s' in (out ++ outs, s'')

call-Delivers : (c : ReadCall) (s : ReadSide) → IsSettled s → Delivers s (call c s).0 (call c s).1
unfolding call
call-Delivers (reads room) s h = poll_read_parts s.rx s.read_buf s.read_eof room h
call-Delivers (fills amt) s h = consumed (fill_parts s.rx s.read_buf s.read_eof h)
  where
    consumed :
        Shows s (poll_fill_buf_channel s).0 (poll_fill_buf_channel s).1
        → Delivers s (call (fills amt) s).0 (call (fills amt) s).1
    consumed (same, settled, shown) =
        let s' = (poll_fill_buf_channel s).1 in
        let (front, settled') = consume_parts s'.rx s'.read_buf s'.read_eof amt settled in
        (rw (shown) (same ∙ front), settled')

-- Whatever mix of `poll_read`, and of `poll_fill_buf` followed by `consume`, reads a stream, and
-- however the receiver's messages and pauses fall between the calls: the bytes handed out, followed
-- by the bytes still to be handed out, are the bytes that there were at the start, in their order.
pub calls-Delivers :
    (cs : List ReadCall) (s : ReadSide) → IsSettled s → Delivers s (calls cs s).0 (calls cs s).1
unfolding calls
calls-Delivers [] s h = (refl, h)
calls-Delivers (c ∷ cs) s h =
    let (first, h') = call-Delivers c s h in
    let (later, h'') = calls-Delivers cs (call c s).1 h' in
    (
      first
          ∙ ap (λ zs. (call c s).0 ++ zs) later
          ∙ sym (
              append_assoc (call c s).0 (calls cs (call c s).1).0 (left (calls cs (call c s).1).1)),
      h'',
    )
