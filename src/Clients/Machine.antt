-- ===== src/Clients/Machine.antt =====
-- The client state machine: where a client can go.
use dohost.Base.{◌≡◌, ◌≢◌, true, List, [], ◌∷◌, arith, any}
use dohost.Data.{ClientStatus, active, pending_verification, suspended, closed}
use dohost.Clients.{client_transitions, is_valid_client_transition, status_eq}

-- The statuses of a client from the last one back to the first: it registers, and every change is a
-- valid transition.
pub data Lifetime : List ClientStatus → Type 0 where
  registered : Lifetime (pending_verification ∷ [])
  moved :
      {from to : ClientStatus} {past : List ClientStatus}
      → is_valid_client_transition from to ≡ true
      → Lifetime (from ∷ past)
      → Lifetime (to ∷ from ∷ past)

-- A valid transition leaves no closed client, changes the status, and never leads back to
-- `pending_verification`; a suspension is of an active client.
pub client_transitions_ends :
    (from to : ClientStatus)
    → is_valid_client_transition from to ≡ true
    → (from ≢ closed) × (to ≢ from) × (to ≢ pending_verification) × (to ≡ suspended → from ≡ active)
unfolding is_valid_client_transition client_transitions
client_transitions_ends pending_verification to v = ground arith
client_transitions_ends active to v = ground arith
client_transitions_ends suspended to v = ground arith
client_transitions_ends closed to v = ground arith

-- A client that is suspended has been active before.
pub Lifetime-suspended :
    {s : ClientStatus} {past : List ClientStatus}
    → Lifetime (s ∷ past)
    → s ≡ suspended
    → any (status_eq active) past ≡ true
Lifetime-suspended registered h = cc
Lifetime-suspended (moved {from = from} {to = to} v before) h =
    rw ((client_transitions_ends from to v).3 h)
