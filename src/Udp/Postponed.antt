-- ===== src/Udp/Postponed.antt =====
-- An error for the server that comes up while a confirmation is awaited.
use ipk.Common.{
  ℕ, ◌<◌, ◌/◌, ◌%◌, ◌∷◌, ◌++◌, true, false, [], ◌≡◌, refl, arith, Bytes, lit, bytes_eq,
}
use ipk.Protocol.{waiting_for_confirmation, ready_for_input, Network, returns}
use ipk.Udp.Validator.{header, form_error_message}
use ipk.Udp.Handler.{Udp, no_id, send_message, send_awaited, send_error_message, process_user_input}
use ipk.Udp.Received.{datagram, process_server_message}
use ipk.Udp.Sending.{awaiting}
use ipk.Udp.Exchange.{confirmation_accepted}

-- The bytes of an ERR with that id.
abbrev pub error_datagram : Bytes → ℕ → Bytes → Bytes
error_datagram name id error =
    0xfe ∷ id / 256 % 256 ∷ id % 256 ∷ (name ++ (0 ∷ (error ++ (0 ∷ []))))

module _ (net : Network) where
  -- The error is kept, and then the confirmation has come.
  abbrev pub postponed : Bytes → Udp → Udp
  postponed error s = record s { error_message = error; error_while_waiting = true }

  abbrev pub free_again : ℕ → Bytes → Udp → Udp
  free_again from error s = record (postponed error s) {
    server_address = from;
    awaited_conirm_id = no_id;
    waiting_for_confirmation = false;
  }

  -- The ERR that is sent in the end.
  abbrev pub reported : Bytes → Udp → Udp
  reported error s = record (awaiting net (error_datagram s.display_name s.renamer3000 error) s) {
    error_sent = true;
  }

  postponed_reported :
      (error text : Bytes) (s : Udp)
      → bytes_eq text (lit "/exit") ≡ false
      → s.error_while_waiting ≡ true
      → s.error_message ≡ error
      → s.waiting_for_confirmation ≡ false
      → process_user_input net text s ≡ returns waiting_for_confirmation (reported error s)
  unfolding process_user_input send_error_message form_error_message send_awaited send_message
  postponed_reported error text s n e m w = ground arith

  -- An error for the server that comes up while the confirmation of a message, with a uint16 for an
  -- id, is awaited, and no reply, BYE or ERR is under way. It is kept, and nothing is sent. The
  -- confirmation makes the client ready for input, and nothing is sent still. The next line of the
  -- user, whatever it is but /exit, is not sent: in its place one ERR is sent, with the next id,
  -- the display name and the error, and its confirmation is awaited. A send that fails is printed.
  pub postponed_error_replaces_line :
      (error text : Bytes) (from : ℕ) (s : Udp)
      → s.waiting_for_confirmation ≡ true
      → s.awaited_conirm_id < 65536
      → s.awaiting_over ≡ false
      → s.error_sent ≡ false
      → s.waiting_for_reply ≡ false
      → bytes_eq text (lit "/exit") ≡ false
      → let free = free_again from error s in
        (send_error_message net error s ≡ postponed error s)
        × (process_server_message net
              (datagram from (header 0 s.awaited_conirm_id []))
              (postponed error s)
            ≡ returns ready_for_input free)
        × (process_user_input net text free
            ≡ returns waiting_for_confirmation (reported error free))
  unfolding send_error_message
  postponed_error_replaces_line error text from s w i o e r n = (
    ground arith,
    confirmation_accepted net from s.awaited_conirm_id (postponed error s) i refl o e r,
    postponed_reported error text (free_again from error s) n refl refl refl,
  )
