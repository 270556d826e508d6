-- ===== src/Udp/Exchange.antt =====
-- A message on its way from one UDP client to the screen of another, and its confirmation back.
use ipk.Common.{
  ℕ, ◌<◌, ◌/◌, ◌%◌, true, false, [], ◌∷◌, ◌++◌, ap, ◌∙◌, ◌≡◌, refl, arith, Bytes, if◌then◌else◌,
}
use ipk.Udp.Fields.{validate_dname, validate_content}
use ipk.Commands.{Plain}
use ipk.Fsm.{opened, is_restricted, message_user, validate_action}
use ipk.Protocol.{waiting_for_confirmation, ready_for_input, Network, returns}
use ipk.Udp.Validator.{header, field, message_validate}
use ipk.Udp.Handler.{
  Udp, no_id, id_lookup, reacting, send_awaited, send_message, on_message, process_user_input,
}
use ipk.Udp.Received.{
  datagram, held, message_id, process_received, process_server_message, on_confirm, on_confirmed,
}
use ipk.Udp.RoundTrip.{parse_and_validate-fields}
use ipk.Udp.Duplicates.{chatting, printed, message_printed_once}
use ipk.Udp.Sending.{awaiting}
use ipk.Udp.Awaited.{message_id-header}

-- The datagram of a message.
abbrev pub message_datagram : Bytes → ℕ → Bytes → Bytes
message_datagram name id text =
    0x04 ∷ id / 256 % 256 ∷ id % 256 ∷ (name ++ (0 ∷ (text ++ (0 ∷ []))))

module _ (net : Network) where
  -- The sender awaits the confirmation, and then has it.
  abbrev pub announced : Bytes → Udp → Udp
  announced text s = record (awaiting net (message_datagram s.display_name s.renamer3000 text) s) {
    fsm = chatting;
    waiting_for_reply = false;
    awaited_reply_id = no_id;
  }

  abbrev pub assured : ℕ → Bytes → Udp → Udp
  assured from text s = record (announced text s) {
    server_address = from;
    awaited_conirm_id = no_id;
    waiting_for_confirmation = false;
  }

  pub process_user_input-Plain :
      (text : Bytes) (s : Udp)
      → Plain text
      → s.error_while_waiting ≡ false
      → process_user_input net text s ≡ reacting message_user (on_message net text) s
  unfolding process_user_input
  process_user_input-Plain text s p e = ground arith

  pub message_announced :
      (text : Bytes) (s : Udp)
      → validate_content text ≡ true
      → s.fsm.current_state ≡ opened
      → is_restricted s.fsm.expected_action ≡ false
      → reacting message_user (on_message net text) s
        ≡ returns waiting_for_confirmation (announced text s)
  unfolding reacting validate_action on_message message_validate send_awaited send_message
  message_announced text s c o e = ground arith

  pub confirmation_accepted :
      (from id : ℕ) (s : Udp)
      → id < 65536
      → s.awaited_conirm_id ≡ id
      → s.awaiting_over ≡ false
      → s.error_sent ≡ false
      → s.waiting_for_reply ≡ false
      → process_server_message net (datagram from (header 0 id [])) s
        ≡ returns ready_for_input (record s {
          server_address = from;
          awaited_conirm_id = no_id;
          waiting_for_confirmation = false;
        })
  unfolding process_server_message process_received on_confirm on_confirmed
  confirmation_accepted from id s h a o e w = ground arith

  -- The receiver of a new message, with its wait for a confirmation as it was.
  message_shown :
      (from id : ℕ) (name text : Bytes) (s : Udp)
      → validate_dname name ≡ true
      → validate_content text ≡ true
      → id < 65536
      → s.fsm.current_state ≡ opened
      → is_restricted s.fsm.expected_action ≡ false
      → id_lookup id s.received_ids ≡ false
      → process_server_message net (datagram from (message_datagram name id text)) s
        ≡ held (
            returns ready_for_input
              (printed net id (name ∷ text ∷ []) (record s { server_address = from })))
  unfolding process_server_message
  message_shown from id name text s n c h o e new =
      let same : message_id (message_datagram name id text) ≡ id = message_id-header 4 id [] h in
      ap held (
        (message_printed_once net (id / 256 % 256) (id % 256) (field name (field text []))
          (name ∷ text ∷ []) (record s { server_address = from })
          (parse_and_validate-fields name text n c) o e (rw same new)).0
        ∙ ap
            (λ i.
              returns ready_for_input
                (printed net i (name ∷ text ∷ []) (record s { server_address = from })))
            same)

  -- A line that one UDP client sends and another one gets, and the confirmation back. Both are in
  -- OPEN with nothing expected, the line is no command, the sender's name, its id and the text are
  -- valid, the id is new to the receiver, which awaits no confirmation, and the sender has nothing
  -- else under way. The sender sends one MSG, with its next id, its name and the line, each with a
  -- null byte, and awaits its confirmation; the receiver sends a CONFIRM of that id and prints the
  -- name and the text; the confirmation makes the sender ready for input. A send that fails is
  -- printed.
  pub message_exchanged :
      (from back : ℕ) (text : Bytes) (a b : Udp)
      → Plain text
      → validate_content text ≡ true
      → validate_dname a.display_name ≡ true
      → a.renamer3000 < 65536
      → a.fsm.current_state ≡ opened
      → is_restricted a.fsm.expected_action ≡ false
      → a.error_while_waiting ≡ false
      → a.awaiting_over ≡ false
      → a.error_sent ≡ false
      → b.fsm.current_state ≡ opened
      → is_restricted b.fsm.expected_action ≡ false
      → b.waiting_for_confirmation ≡ false
      → id_lookup a.renamer3000 b.received_ids ≡ false
      → let id = a.renamer3000 in
        (process_user_input net text a ≡ returns waiting_for_confirmation (announced text a))
        × (process_server_message net (datagram from (message_datagram a.display_name id text)) b
            ≡ returns ready_for_input
                (printed net id (a.display_name ∷ text ∷ []) (record b { server_address = from })))
        × (process_server_message net (datagram back (header 0 id [])) (announced text a)
            ≡ returns ready_for_input (assured back text a))
  message_exchanged from back text a b p c n i ao ae ew aw es bo be bw new = (
    process_user_input-Plain text a p ew ∙ message_announced text a c ao ae,
    message_shown from a.renamer3000 a.display_name text b n c i bo be new
        ∙ ap
            (λ w. returns (if w then waiting_for_confirmation else ready_for_input) (
              printed net a.renamer3000 (a.display_name ∷ text ∷ [])
                (record b { server_address = from })))
            bw,
    confirmation_accepted back a.renamer3000 (announced text a) i refl aw es refl,
  )
