-- ===== src/Udp/Duplicates.antt =====
-- A message of the server that comes twice.
use ipk.Common.{ℕ, true, false, List, [], ◌∷◌, ◌++◌, some, ◌≡◌, refl, arith, Bytes, get_or}
use ipk.Fsm.{Fsm, opened, any, is_restricted, validate_action}
use ipk.Protocol.{ready_for_input, Network, returns}
use ipk.ClientOutput
use ipk.Udp.Validator.{msg, parse_and_validate}
use ipk.Udp.Handler.{Udp, id_lookup, reacting, send_message, send_confirmation}
use ipk.Udp.Sending.{tried, confirm_datagram}
use ipk.Udp.Received.{message_id, on_msg, on_msg_message, process_received}

pub id_lookup-append : (id : ℕ) (ids : List ℕ) → id_lookup id (ids ++ id ∷ []) ≡ true
unfolding id_lookup
id_lookup-append id [] = ground arith
id_lookup-append id (i ∷ ids) = ground (arith, id_lookup-append id ids)

-- The machine in OPEN after a message.
abbrev pub chatting : Fsm
chatting = record {
  current_state = opened;
  previous_state = some opened;
  expected_action = any ∷ [];
}

-- A MSG of the server with this text behind its id.
abbrev pub datagram_of : ℕ → ℕ → Bytes → Bytes
datagram_of high low text = 0x04 ∷ high ∷ low ∷ text

module _ (net : Network) where
  -- Confirmed, and nothing else.
  abbrev pub confirmed : ℕ → Udp → Udp
  confirmed id s = record s {
    fsm = chatting;
    log = tried net s.server_address (confirm_datagram id) s.log;
  }

  -- Confirmed, remembered and printed.
  abbrev pub printed : ℕ → List Bytes → Udp → Udp
  printed id words s =
      let t = confirmed id s in
      record t {
        received_ids = t.received_ids ++ id ∷ [];
        log = ClientOutput.message_from_server (get_or words 0 []) (get_or words 1 []) ∷ t.log;
      }

  pub process_received_new :
      (high low : ℕ) (text : Bytes) (words : List Bytes) (s : Udp)
      → parse_and_validate text msg ≡ (words, true)
      → s.fsm.current_state ≡ opened
      → is_restricted s.fsm.expected_action ≡ false
      → id_lookup (message_id (datagram_of high low text)) s.received_ids ≡ false
      → process_received net (datagram_of high low text) s
        ≡ returns ready_for_input (printed (message_id (datagram_of high low text)) words s)
  unfolding process_received on_msg_message reacting on_msg validate_action send_confirmation
      send_message
  process_received_new high low text words s p o e n = ground arith

  process_received_again :
      (high low : ℕ) (text : Bytes) (words : List Bytes) (s : Udp)
      → parse_and_validate text msg ≡ (words, true)
      → s.fsm.current_state ≡ opened
      → is_restricted s.fsm.expected_action ≡ false
      → id_lookup (message_id (datagram_of high low text)) s.received_ids ≡ true
      → process_received net (datagram_of high low text) s
        ≡ returns ready_for_input (confirmed (message_id (datagram_of high low text)) s)
  unfolding process_received on_msg_message reacting on_msg validate_action send_confirmation
      send_message
  process_received_again high low text words s p o e n = ground arith

  -- In OPEN with nothing expected, a valid MSG whose id is new is confirmed, remembered and printed;
  -- the same datagram once more is confirmed, and not printed.
  pub message_printed_once :
      (high low : ℕ) (text : Bytes) (words : List Bytes) (s : Udp)
      → parse_and_validate text msg ≡ (words, true)
      → s.fsm.current_state ≡ opened
      → is_restricted s.fsm.expected_action ≡ false
      → let m = datagram_of high low text in
        let id = message_id m in
        id_lookup id s.received_ids ≡ false
        → (process_received net m s ≡ returns ready_for_input (printed id words s))
          × (process_received net m (printed id words s)
              ≡ returns ready_for_input (confirmed id (printed id words s)))
  message_printed_once high low text words s p o e n =
      let id = message_id (datagram_of high low text) in
      (
        process_received_new high low text words s p o e n,
        process_received_again high low text words (printed id words s) p refl refl
            (id_lookup-append id s.received_ids),
      )
