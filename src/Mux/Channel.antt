-- ===== src/Mux/Channel.antt =====
-- The bounded channels of the crate tokio, which is not part of the repository: the calls that the
-- multiplexer makes on the sending half, and what tokio documents of them.
use kube_portforward.Prelude.{◌≡◌, ◌≢◌, refl, List, [], ◌∷◌, ◌++◌, ◌⊎◌, inl, inr}

-- `Ok(())`, `Err(TrySendError::Full(_))` and `Err(TrySendError::Closed(_))`.
pub data SendResult : Type 0 where
  sent full disconnected : SendResult

-- `Chan A` is the state of a channel, with the permits that are out; `queue` is what was sent and
-- not yet received.
pub record Mpsc : Type 1 where
  pub Chan : Type 0 → Type 0
  pub queue : (A : Type 0) → Chan A → List A
  pub try_send : (A : Type 0) → Chan A → A → SendResult × Chan A
  -- `try_reserve_owned`, `OwnedPermit::send`, and dropping a permit unused.
  pub try_reserve : (A : Type 0) → Chan A → SendResult × Chan A
  pub permit_send : (A : Type 0) → Chan A → A → Chan A
  pub permit_drop : (A : Type 0) → Chan A → Chan A

pub record MpscLaws (mpsc : Mpsc) : Type 1 where
  pub queue-try_send :
      (A : Type 0) (c : mpsc.Chan A) (a : A)
      → (mpsc.try_send A c a).0 ≡ sent
      → mpsc.queue A (mpsc.try_send A c a).1 ≡ mpsc.queue A c ++ a ∷ []
  pub queue-try_send_refused :
      (A : Type 0) (c : mpsc.Chan A) (a : A)
      → (mpsc.try_send A c a).0 ≢ sent
      → (mpsc.try_send A c a).1 ≡ c
  pub queue-try_reserve :
      (A : Type 0) (c : mpsc.Chan A) → mpsc.queue A (mpsc.try_reserve A c).1 ≡ mpsc.queue A c
  pub queue-permit_send :
      (A : Type 0) (c : mpsc.Chan A) (a : A)
      → mpsc.queue A (mpsc.permit_send A c a) ≡ mpsc.queue A c ++ a ∷ []
  pub queue-permit_drop :
      (A : Type 0) (c : mpsc.Chan A) → mpsc.queue A (mpsc.permit_drop A c) ≡ mpsc.queue A c

pub SendResult-cases : (r : SendResult) → (r ≡ sent) ⊎ ((r ≡ full) ⊎ (r ≡ disconnected))
SendResult-cases sent = inl refl
SendResult-cases full = inr (inl refl)
SendResult-cases disconnected = inr (inr refl)
