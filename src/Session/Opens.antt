-- ===== src/Session/Opens.antt =====
-- crates/spdy-mux/src/session.rs, `open_stream_pair`: the handle that a pair is opened on, and what
-- it means that there is none.
use kube_portforward.Prelude.{
  ℕ, zero, suc, ◌+◌, ◌%◌, ◌^◌, ◌<◌, ◌≡◌, ◌⊎◌, inr, refl, sym, ap, subst, ◌∙◌, List, Option, none,
  some, Bool, true, false, leb, length, get_elem?, if◌then◌else◌, arith,
}
use kube_portforward.Error.{Result, ok, err, capacity_exhausted}
use kube_portforward.Mux.Channel.{Mpsc}
use kube_portforward.Mux.Handle.{MuxHandle}
use kube_portforward.Mux.Handle
use kube_portforward.Session.{
  Session, preferred, try_open, try_handle, on_opened, or_else, take_next, scan, try_second,
  open_stream_pair, in_use, capacity,
}
use kube_portforward.Session.Tries.{IsSmall, try_open-Tried}
use kube_portforward.Session.Rounds.{Round, Round-split, Round-covers}
use kube_portforward.Session.Outcomes.{Opened, exhausted, Opened-map, or_else-Opened}

module _ {mpsc : Mpsc} where
  on_opened_next :
      (idx elapsed : ℕ) (s : Session mpsc) (answer : Result ℕ) (mux : MuxHandle mpsc)
      → (on_opened idx elapsed s (answer, mux)).1.next ≡ s.next
  on_opened_next idx elapsed s (ok frame_size) mux = refl
  on_opened_next idx elapsed s (err (capacity_exhausted in_use limit)) mux = refl
  on_opened_next idx elapsed s (err e) mux = refl

  if_next :
      (b : Bool) (x y : Result (Option ℕ) × Session mpsc) (n : ℕ)
      → x.1.next ≡ n
      → y.1.next ≡ n
      → (if b then x else y).1.next ≡ n
  if_next true x y n p q = p
  if_next false x y n p q = q

  try_handle_next :
      (idx elapsed : ℕ) (s : Session mpsc) (found : Option (MuxHandle mpsc))
      → (try_handle idx elapsed s found).1.next ≡ s.next
  try_handle_next idx elapsed s none = refl
  try_handle_next idx elapsed s (some mux) =
      if_next mux.closed (ok none, s) (on_opened idx elapsed s (Handle.open_stream_pair mux)) s.next
        refl
        (on_opened_next idx elapsed s (Handle.open_stream_pair mux).0
          (Handle.open_stream_pair mux).1)

  try_open_next : (idx elapsed : ℕ) (s : Session mpsc) → (try_open idx elapsed s).1.next ≡ s.next
  unfolding try_open
  try_open_next idx elapsed s = try_handle_next idx elapsed s (get_elem? s.pool idx)

  scan-Opened :
      (rounds pool_size elapsed : ℕ) (s : Session mpsc)
      → IsSmall s.pool
      → s.next + rounds < 2 ^ 64
      → Opened
          (Round pool_size s.next rounds)
          s
          (scan rounds pool_size elapsed s).0
          (scan rounds pool_size elapsed s).1
  unfolding scan in_use capacity take_next
  scan-Opened zero pool_size elapsed s small room =
      exhausted (λ idx mux round at. absurd (omega (arith, round.1))) refl refl
  scan-Opened (suc rounds) pool_size elapsed s small room =
      let t = take_next s in
      let idx = s.next % pool_size in
      let t' = (try_open idx elapsed t).1 in
      Opened-map (λ i. (i ≡ idx) ⊎ Round pool_size (s.next + 1) rounds i) _ s _ _
        (Round-split pool_size s.next rounds)
        (or_else-Opened (Round pool_size (s.next + 1) rounds) idx s t t' (try_open idx elapsed t).0
          (scan rounds pool_size elapsed) refl (try_open-Tried idx elapsed t small)
          (λ same.
            let n : t'.next ≡ s.next + 1 = try_open_next idx elapsed t ∙ omega arith in
            Opened-map (Round pool_size t'.next rounds) _ t' _ _
              (λ i. subst (λ (k : ℕ). Round pool_size k rounds i) (sym n))
              (scan-Opened rounds pool_size elapsed t'
                (subst (λ (pool : List (MuxHandle mpsc)). IsSmall pool) (sym same) small)
                (omega arith))))

  -- The scan, where the counter does not wrap around, comes to every handle.
  full_scan-Opened :
      (pool_size elapsed : ℕ) (t : Session mpsc)
      → IsSmall t.pool
      → t.next + pool_size < 2 ^ 64
      → Opened
          (λ idx. idx < pool_size)
          t
          (scan pool_size pool_size elapsed t).0
          (scan pool_size pool_size elapsed t).1
  full_scan-Opened pool_size elapsed t small room =
      Opened-map (Round pool_size t.next pool_size) _ t _ _ (Round-covers pool_size t.next)
        (scan-Opened pool_size pool_size elapsed t small room)

  second-Opened :
      (second elapsed : ℕ) (t : Session mpsc)
      → IsSmall t.pool
      → t.next + length t.pool < 2 ^ 64
      → Opened
          (λ idx. idx < length t.pool)
          t
          (try_second second elapsed t).0
          (try_second second elapsed t).1
  second-Opened second elapsed t small room =
      let t' = (try_open second elapsed t).1 in
      Opened-map (λ i. (i ≡ second) ⊎ (i < length t.pool)) _ t _ _ (λ i lt. inr lt)
        (or_else-Opened (λ i. i < length t.pool) second t t t' (try_open second elapsed t).0
          (scan (length t.pool) (length t.pool) elapsed) refl
          (try_open-Tried second elapsed t small)
          (λ same.
            full_scan-Opened (length t.pool) elapsed t'
              (subst (λ (pool : List (MuxHandle mpsc)). IsSmall pool) (sym same) small)
              (omega (arith, try_open_next second elapsed t))))

  first-Opened :
      (first second elapsed : ℕ) (s : Session mpsc)
      → IsSmall s.pool
      → s.next + length s.pool + 1 < 2 ^ 64
      → Opened
          (λ idx. idx < length s.pool)
          s
          (or_else (try_open first elapsed (take_next s)) (try_second second elapsed)).0
          (or_else (try_open first elapsed (take_next s)) (try_second second elapsed)).1
  unfolding take_next
  first-Opened first second elapsed s small room =
      let t = take_next s in
      let t' = (try_open first elapsed t).1 in
      Opened-map (λ i. (i ≡ first) ⊎ (i < length s.pool)) _ s _ _ (λ i lt. inr lt)
        (or_else-Opened (λ i. i < length s.pool) first s t t' (try_open first elapsed t).0
          (try_second second elapsed) refl (try_open-Tried first elapsed t small)
          (λ same.
            let n : t'.next ≡ s.next + 1 = try_open_next first elapsed t ∙ omega arith in
            let len : length t'.pool ≡ length s.pool = ap length same in
            Opened-map (λ i. i < length t'.pool) _ t' _ _ (λ i lt. omega arith)
              (second-Opened second elapsed t'
                (subst (λ (pool : List (MuxHandle mpsc)). IsSmall pool) (sym same) small)
                (omega arith))))

  if-Opened :
      (P : ℕ → Type 0) (s : Session mpsc) (b : Bool) (x y : Result ℕ × Session mpsc)
      → Opened P s x.0 x.1
      → Opened P s y.0 y.1
      → Opened P s (if b then x else y).0 (if b then x else y).1
  if-Opened P s true x y p q = p
  if-Opened P s false x y p q = q

  -- What comes of opening a pair on a session, where no handle has 2^32 pairs and the counter does not
  -- wrap around. It is opened on one handle, which is not closed and not going away, whose pairs are
  -- one more and within both of its limits, and all other handles are as they were; or every handle
  -- is closed or at one of its limits, and the error gives the numbers of the session; or a handle is
  -- going away, and the error is that of a closed connection. In the last two cases the handles are
  -- as they were.
  pub open_stream_pair-Opened :
      (elapsed : ℕ) (s : Session mpsc)
      → IsSmall s.pool
      → s.next + length s.pool + 1 < 2 ^ 64
      → Opened
          (λ idx. idx < length s.pool)
          s
          (open_stream_pair elapsed s).0
          (open_stream_pair elapsed s).1
  unfolding open_stream_pair
  open_stream_pair-Opened elapsed s small room =
      if-Opened _ s (leb 2 (length s.pool))
        (or_else (try_open (preferred s).0 elapsed (take_next s))
          (try_second (preferred s).1 elapsed))
        (scan (length s.pool) (length s.pool) elapsed s)
        (first-Opened (preferred s).0 (preferred s).1 elapsed s small room)
        (full_scan-Opened (length s.pool) elapsed s small (omega arith))
