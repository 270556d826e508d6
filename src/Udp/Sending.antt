-- ===== src/Udp/Sending.antt =====
-- What the sends of the UDP handler do.
use ipk.Common.{ℕ, ◌+◌, ◌/◌, ◌%◌, true, [], ◌∷◌, ◌≡◌, arith, if◌then◌else◌, Bytes, lit}
use ipk.ClientOutput
use ipk.Protocol.{sent, Log, Network}
use ipk.Udp.Handler.{Udp, send_message, send_confirmation}

-- A log with one datagram more for that address, which has failed where the network says so.
abbrev pub tried : Network → ℕ → Bytes → Log → Log
tried net address m log =
    if net log m
    then sent address m ∷ log
    else ClientOutput.internal_error_message (lit "Error while sending the message")
      ∷ sent address m
      ∷ log

-- The bytes of a CONFIRM of that id.
abbrev pub confirm_datagram : ℕ → Bytes
confirm_datagram id = 0 ∷ id / 256 % 256 ∷ id % 256 ∷ []

-- A new datagram has been tried, with the client's next id, and its confirmation is awaited.
abbrev pub awaiting : Network → Bytes → Udp → Udp
awaiting net m s = record s {
  log = tried net s.server_address m s.log;
  awaited_conirm_id = s.renamer3000;
  last_message = m;
  renamer3000 = (s.renamer3000 + 1) % 65536;
  waiting_for_confirmation = true;
}

module _ (net : Network) where
  -- A send changes the log only.
  pub send_message-log :
      (m : Bytes) (s : Udp) → send_message net m s ≡ record s { log = (send_message net m s).log }
  unfolding send_message
  send_message-log m s = ground arith

  pub send_confirmation-log :
      (id : ℕ) (s : Udp)
      → send_confirmation net id s ≡ record s { log = (send_confirmation net id s).log }
  unfolding send_confirmation
  send_confirmation-log id s = send_message-log _ s
