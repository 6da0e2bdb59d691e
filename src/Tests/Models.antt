-- ===== src/Tests/Models.antt =====
-- Concrete libraries for the tests: a zlib that stores its input, one that asks
-- for a dictionary as well, and channels of a fixed capacity.
use kube_portforward.Prelude.{
  ℕ, zero, suc, ◌≡◌, ◌≢◌, refl, inl, inr, min, List, [], ◌∷◌, Bool, true, false, ◌++◌, some, length,
  take, ◌==◌, if◌then◌else◌, arith, length-take, length-drop, Bool-cases,
}
use kube_portforward.Wire.{Bytes}
use kube_portforward.Flate.{
  Flate, FlateLaws, Fits, Compresses, Flated, flated, failed, status_ok, buf_error,
}
use kube_portforward.Mux.Channel.{Mpsc, MpscLaws, SendResult, sent, full}

-- Copies as much of the input as there is room for.
unfoldable pub stored : {S : Type 0} → S → Bytes → ℕ → Flated S
stored state input room =
    let n = min room (length input) in
    if n == 0 then flated buf_error 0 [] state else flated status_ok n (take n input) state

stored-Fits :
    {S : Type 0} (state : S) (input : Bytes) (room : ℕ) → Fits input room (stored state input room)
unfolding stored
stored-Fits state input room = elim (Bool-cases (min room (length input) == 0)) [
  | inl z ↦ rw z (omega arith, omega arith, λ e. cc)
  | inr p ↦ rw p (
    omega arith,
    omega (arith, length-take (min room (length input)) input),
    λ e h k. omega arith,
  )
]

abbrev pub stored_flate : Flate
stored_flate = record {
  Inflater = Unit {0};
  Deflater = Unit {0};
  decompress = λ d input room. stored d input room;
  inflate_dictionary = λ d dict. some tt;
  compress = λ d input room. stored d input room;
  deflate_dictionary = λ d dict. some tt;
  deflate_bound = λ d input. length input;
}

stored-Compresses :
    (input : Bytes) (room : ℕ) → Compresses stored_flate tt input room (stored tt input room)
unfolding stored
stored-Compresses input room = elim (Bool-cases (min room (length input) == 0)) [
  | inl z ↦ rw z (omega arith, λ e h. (ground arith, refl))
  | inr p ↦ rw p (
    omega (
      arith,
      length-take (min room (length input)) input,
      length-drop (min room (length input)) input,
    ),
    λ e. cc,
  )
]

-- The same with a header of two bytes, after which the inflater asks for its dictionary; its state
-- says whether it has one.
unfoldable pub asking : Bool → Bytes → ℕ → Flated Bool
unfolding stored
asking false input room = failed true (min 2 (length input)) [] false
asking true input room = stored true input room

asking-Fits : (d : Bool) (input : Bytes) (room : ℕ) → Fits input room (asking d input room)
unfolding asking
asking-Fits false input room = (omega arith, omega arith)
asking-Fits true input room = stored-Fits true input room

abbrev pub asking_flate : Flate
asking_flate = record {
  Inflater = Bool;
  Deflater = Unit {0};
  decompress = asking;
  inflate_dictionary = λ d dict. some true;
  compress = λ d input room. stored d input room;
  deflate_dictionary = λ d dict. some tt;
  deflate_bound = λ d input. length input;
}

pub asking_laws : FlateLaws asking_flate
asking_laws = record {
  decompress-Fits = asking-Fits;
  compress-Fits = λ d input room. stored-Fits d input room;
  compress-Compresses = λ d input room. stored-Compresses input room;
}

-- What was sent, and how many places are free.
abbrev pub Bounded : Type 0 → Type 0
Bounded A = List A × ℕ

abbrev pub push : (A : Type 0) → Bounded A → A → SendResult × Bounded A
push A (q, zero) a = (full, (q, zero))
push A (q, suc room) a = (sent, (q ++ a ∷ [], room))

abbrev pub reserve : (A : Type 0) → Bounded A → SendResult × Bounded A
reserve A (q, zero) = (full, (q, zero))
reserve A (q, suc room) = (sent, (q, room))

abbrev pub bounded : Mpsc
bounded = record {
  Chan = Bounded;
  queue = λ A c. c.0;
  try_send = push;
  try_reserve = reserve;
  permit_send = λ A c a. (c.0 ++ a ∷ [], c.1);
  permit_drop = λ A c. (c.0, suc c.1);
}

push_sent :
    (A : Type 0) (c : Bounded A) (a : A) → (push A c a).0 ≡ sent → (push A c a).1.0 ≡ c.0 ++ a ∷ []
push_sent A (q, zero) a h = cc
push_sent A (q, suc room) a h = refl

push_refused : (A : Type 0) (c : Bounded A) (a : A) → (push A c a).0 ≢ sent → (push A c a).1 ≡ c
push_refused A (q, zero) a h = refl
push_refused A (q, suc room) a h = absurd (h refl)

reserve_kept : (A : Type 0) (c : Bounded A) → (reserve A c).1.0 ≡ c.0
reserve_kept A (q, zero) = refl
reserve_kept A (q, suc room) = refl

pub bounded_laws : MpscLaws bounded
bounded_laws = record {
  queue-try_send = push_sent;
  queue-try_send_refused = push_refused;
  queue-try_reserve = reserve_kept;
  queue-permit_send = λ A c a. refl;
  queue-permit_drop = λ A c. refl;
}
