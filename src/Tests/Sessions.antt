-- ===== src/Tests/Sessions.antt =====
-- The theorems on sessions over several handles, and on connecting, at concrete inputs.
use kube_portforward.Prelude.{
  ℕ, ◌<◌, ◌≡◌, inr, refl, [], ◌∷◌, some, Bool, true, false, get_elem?, arith,
}
use kube_portforward.Error.{err, mux_closed}
use kube_portforward.Error
use kube_portforward.Mux.Handle.{MuxHandle}
use kube_portforward.Mux.Handle
use kube_portforward.Session
use kube_portforward.Session.{Session, preferred, open_stream_pair}
use kube_portforward.Session.Outcomes.{Opened}
use kube_portforward.Session.Opens.{open_stream_pair-Opened}
use kube_portforward.Session.Limits.{open_stream_pair_goaway}
use kube_portforward.Pods.{ReadyPod}
use kube_portforward.Forwarder.{Forwarder}
use kube_portforward.Portforward.{
  PortSession, Attempt, connect, connect_on_pod, replenish_spare_streams,
}
use kube_portforward.Portforward.Spares.{Replenished, replenish_spare_streams-Replenished}
use kube_portforward.Portforward.Connects.{once, connect_on_pod-once}
use kube_portforward.Tests.Models.{bounded}
use kube_portforward.Tests.Handles.{handle, reserved}

-- A handle with room for one pair, and one that is at its operating limit.
abbrev two_handles : Session bounded
two_handles = record {
  pool = handle ∷ reserved ∷ [];
  metrics = 1000000 ∷ 1000000 ∷ [];
  next = 0;
  cancel = false;
}

open_stream_pair-Opened_example :
    Opened
      (λ idx. idx < 2)
      two_handles
      (open_stream_pair 500 two_handles).0
      (open_stream_pair 500 two_handles).1
open_stream_pair-Opened_example =
    open_stream_pair-Opened 500 two_handles (omega arith) (omega arith)

-- The first handle, which is preferred, is going away; the second has room.
abbrev leaving : MuxHandle bounded
leaving = record handle { goaway_received = true }

abbrev one_leaves : Session bounded
one_leaves = record two_handles { pool = leaving ∷ handle ∷ [] }

first_is_preferred : get_elem? one_leaves.pool (preferred one_leaves).0 ≡ some leaving
unfolding preferred
first_is_preferred = refl

open_stream_pair_goaway_example : (open_stream_pair 500 one_leaves).0 ≡ err mux_closed
open_stream_pair_goaway_example =
    open_stream_pair_goaway 500 one_leaves leaving (omega arith) first_is_preferred refl refl

-- One handle, at its operating limit of two pairs and below its hard limit of three.
abbrev limited : PortSession bounded
limited = record {
  inner = record two_handles { pool = reserved ∷ []; metrics = 1000000 ∷ [] };
  port = 8080;
  next_request_id = 0;
  spare_streams = [];
  replenishing = false;
}

abbrev pod : ReadyPod
pod = record { name = "a"; uid = some "1" }

abbrev attempts : ℕ → Attempt
attempts n = record { ensured = inr pod; connected = (connect 500 limited).0 }

connect_on_pod-once_example : connect_on_pod false 128 8080 attempts ≡ once (attempts 127)
connect_on_pod-once_example =
    connect_on_pod-once 127 8080 attempts (λ e. omega arith) (λ n. (500, limited, refl))

abbrev roomy : PortSession bounded
roomy = record limited { inner = two_handles }

replenish_spare_streams-Replenished_example :
    (◌≡◌ {A = Bool} false true → replenish_spare_streams 500 roomy ≡ roomy)
    × (◌≡◌ {A = Bool} false false
        → (q : PortSession bounded) × Replenished 500 (record roomy { replenishing = true }) q
          × (replenish_spare_streams 500 roomy ≡ record q { replenishing = false }))
replenish_spare_streams-Replenished_example = replenish_spare_streams-Replenished 500 roomy
