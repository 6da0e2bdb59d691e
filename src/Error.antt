-- ===== src/Error.antt =====
-- crates/spdy-mux/src/error.rs: the error type, and the result that a fallible operation returns.
-- Messages that come from zlib or the operating system are left out, and so are the wrapped
-- transport errors, which only the asynchronous glue produces.
use Prim.Native.String.{String}
use kube_portforward.Prelude.{ℕ, Bool, true, false}

-- `out_of_fuel` is no error of the program: a loop of the model ran out of fuel.
pub data Error : Type 0 where
  invalid_frame : String → Error
  compression : Error
  stream_reset : ℕ → ℕ → Error
  mux_closed : Error
  capacity_exhausted : ℕ → ℕ → Error
  frame_too_large : ℕ → ℕ → ℕ → Error
  go_away : ℕ → ℕ → Error
  out_of_fuel : Error

-- The alias `Result<Value, Error>`.
pub data Result {u} (Value : Type u) : Type u where
  err : Error → Result Value
  ok : Value → Result Value

-- The operator `?`.
infixl 5 ◌>>=◌
abbrev pub ◌>>=◌ {u v} :
    {First : Type u} {Second : Type v} → Result First → (First → Result Second) → Result Second
err problem >>= next = err problem
ok value >>= next = next value

-- The same, where the first part has no value.
infixl 5 ◌>>◌
abbrev pub ◌>>◌ {u} : {Second : Type u} → Result (Unit {0}) → Result Second → Result Second
err problem >> next = err problem
ok value >> next = next

-- `if test { return Err(e) }`.
abbrev pub reject : Bool → Error → Result (Unit {0})
reject true e = err e
reject false e = ok tt
