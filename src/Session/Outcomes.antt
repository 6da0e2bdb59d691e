-- ===== src/Session/Outcomes.antt =====
-- crates/spdy-mux/src/session.rs: what `open_stream_pair` can come to, and how one try is followed by
-- another.
use kube_portforward.Prelude.{
  ℕ, ◌%◌, ◌^◌, ◌≡◌, ◌⊎◌, inl, inr, refl, sym, ap, subst, ◌∙◌, List, Option, some, true, false,
  get_elem?, set,
}
use kube_portforward.Error.{Result, ok, err, mux_closed, capacity_exhausted}
use kube_portforward.Mux.Channel.{Mpsc}
use kube_portforward.Mux.Handle.{MuxHandle}
use kube_portforward.Session.{Session, or_else, in_use, capacity, in_use_of, capacity_of}
use kube_portforward.Session.Tries.{IsUnavailable, HasOpened, Tried, skipped, opened, failed}

module _ {mpsc : Mpsc} where
  -- What `open_stream_pair` can come to, from `s` to `s'`; the indices below are tried by `tried`.
  pub data Opened (tried : ℕ → Type 0) (s : Session mpsc) (r : Result ℕ) (s' : Session mpsc)
      : Type 0 where
    on_handle :
        (idx : ℕ) (mux mux' : MuxHandle mpsc) (frame_size : ℕ)
        → get_elem? s.pool idx ≡ some mux
        → HasOpened mux mux'
        → r ≡ ok frame_size
        → s'.pool ≡ set s.pool idx mux'
        → Opened tried s r s'
    exhausted :
        ((idx : ℕ) (mux : MuxHandle mpsc)
          → tried idx
          → get_elem? s.pool idx ≡ some mux
          → IsUnavailable mux)
        → r ≡ err (capacity_exhausted (in_use s) (capacity s % 2 ^ 32))
        → s'.pool ≡ s.pool
        → Opened tried s r s'
    going_away :
        (idx : ℕ) (mux : MuxHandle mpsc)
        → get_elem? s.pool idx ≡ some mux
        → mux.closed ≡ false
        → mux.goaway_received ≡ true
        → r ≡ err mux_closed
        → s'.pool ≡ s.pool
        → Opened tried s r s'

  pub Opened-map :
      (P Q : ℕ → Type 0) (s : Session mpsc) (r : Result ℕ) (s' : Session mpsc)
      → ((idx : ℕ) → Q idx → P idx)
      → Opened P s r s'
      → Opened Q s r s'
  Opened-map P Q s r s' f (on_handle idx mux mux' frame_size at opens e p) =
      on_handle idx mux mux' frame_size at opens e p
  Opened-map P Q s r s' f (exhausted why e p) = exhausted (λ idx mux q. why idx mux (f idx q)) e p
  Opened-map P Q s r s' f (going_away idx mux at live away e p) =
      going_away idx mux at live away e p

  skipped-Opened :
      (P : ℕ → Type 0) (idx : ℕ) (s t : Session mpsc) (r : Result ℕ) (s' : Session mpsc)
      → t.pool ≡ s.pool
      → ((mux : MuxHandle mpsc) → get_elem? s.pool idx ≡ some mux → IsUnavailable mux)
      → Opened P t r s'
      → Opened (λ i. (i ≡ idx) ⊎ P i) s r s'
  unfolding in_use capacity
  skipped-Opened P idx s t r s' same why (on_handle i mux mux' frame_size at opens e p) =
      on_handle i mux mux' frame_size
        (ap (λ (pool : List (MuxHandle mpsc)). get_elem? pool i) (sym same) ∙ at) opens e
        (p ∙ ap (λ (pool : List (MuxHandle mpsc)). set pool i mux') same)
  skipped-Opened P idx s t r s' same why (exhausted rest e p) =
      exhausted
        (λ i mux tried at. elim tried [
          | inl here ↦ why mux (ap (λ (k : ℕ). get_elem? s.pool k) (sym here) ∙ at)
          | inr later ↦
              rest i mux later (ap (λ (pool : List (MuxHandle mpsc)). get_elem? pool i) same ∙ at)
        ])
        (e
          ∙ ap
              (λ (pool : List (MuxHandle mpsc)).
                err (capacity_exhausted (in_use_of pool) (capacity_of pool % 2 ^ 32)))
              same)
        (p ∙ same)
  skipped-Opened P idx s t r s' same why (going_away i mux at live away e p) =
      going_away i mux (ap (λ (pool : List (MuxHandle mpsc)). get_elem? pool i) (sym same) ∙ at)
        live away e (p ∙ same)

  -- A try on one handle, and what is done if nothing was opened there.
  pub or_else-Opened :
      (P : ℕ → Type 0) (idx : ℕ) (s t t' : Session mpsc) (r : Result (Option ℕ))
      (further : Session mpsc → Result ℕ × Session mpsc)
      → t.pool ≡ s.pool
      → Tried idx t r t'
      → (t'.pool ≡ s.pool → Opened P t' (further t').0 (further t').1)
      → Opened (λ i. (i ≡ idx) ⊎ P i) s (or_else (r, t') further).0 (or_else (r, t') further).1
  unfolding in_use capacity
  or_else-Opened P idx s t t' r further same (skipped why e p) next =
      subst
        (λ (a : Result (Option ℕ)).
          Opened (λ i. (i ≡ idx) ⊎ P i) s (or_else (a, t') further).0 (or_else (a, t') further).1)
        (sym e)
        (skipped-Opened P idx s t' (further t').0 (further t').1 (p ∙ same)
          (λ mux at. why mux (ap (λ (pool : List (MuxHandle mpsc)). get_elem? pool idx) same ∙ at))
          (next (p ∙ same)))
  or_else-Opened P idx s t t' r further same (opened mux mux' frame_size at opens e p) next =
      subst
        (λ (a : Result (Option ℕ)).
          Opened (λ i. (i ≡ idx) ⊎ P i) s (or_else (a, t') further).0 (or_else (a, t') further).1)
        (sym e)
        (on_handle idx mux mux' frame_size
          (ap (λ (pool : List (MuxHandle mpsc)). get_elem? pool idx) (sym same) ∙ at) opens refl
          (p ∙ ap (λ (pool : List (MuxHandle mpsc)). set pool idx mux') same))
  or_else-Opened P idx s t t' r further same (failed mux at live away e p) next =
      subst
        (λ (a : Result (Option ℕ)).
          Opened (λ i. (i ≡ idx) ⊎ P i) s (or_else (a, t') further).0 (or_else (a, t') further).1)
        (sym e)
        (going_away idx mux
          (ap (λ (pool : List (MuxHandle mpsc)). get_elem? pool idx) (sym same) ∙ at) live away refl
          (p ∙ same))
