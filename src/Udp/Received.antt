-- ===== src/Udp/Received.antt =====
-- UDPProtocolHandler.cpp: `process_received` and `process_server_message`, one datagram.
use ipk.Common.{
  ℕ, ◌+◌, ◌*◌, ◌%◌, true, false, List, [], ◌∷◌, ◌++◌, ltb, ◌==◌, if◌then◌else◌, Bytes, lit, length,
  get_or, drop,
}
use ipk.Fsm.{Action, message_server, error_user, error_server, reply_server, nreply_server, any}
use ipk.Protocol.{
  ClientState, ready_for_input, over, Effect, cerr, Network, Run, returns, exits, undefined,
}
use ipk.ClientOutput
use ipk.Udp.Validator.{reply, msg, err, parse_and_validate}
use ipk.Udp.Handler.{
  Udp, no_id, id_lookup, print, reacting, send_confirmation, send_error_message, send_bye,
}

-- `(message[i] << 8) | message[j]` of two bytes, as a uint16.
abbrev pub id_of : ℕ → ℕ → ℕ
id_of high low = (high * 256 + low) % 65536

-- The id of a message that has three bytes at least.
abbrev pub message_id : Bytes → ℕ
message_id message = id_of (get_or message 1 0) (get_or message 2 0)

-- What one `recvfrom` call gives: -1, or the sender's address and the datagram.
pub data RecvFrom : Type 0 where
  failed : RecvFrom
  datagram : ℕ → Bytes → RecvFrom

-- `waiting_for_confirmation ? WAITING_FOR_CONFIRMATION : state`
abbrev pub held : Run Udp ClientState → Run Udp ClientState
held undefined = undefined
held (exits s) = exits s
held (returns state s) =
    returns (if s.waiting_for_confirmation then ClientState.waiting_for_confirmation else state) s

module _ (net : Network) where
  abbrev fail_with : Bytes → Udp → Run Udp ClientState
  fail_with error s = returns ClientState.waiting_for_confirmation (send_error_message net error s)

  -- Received ids: `received_ids.push_back(id)`.
  abbrev remember : ℕ → Udp → Udp
  remember id s = record s { received_ids = s.received_ids ++ id ∷ [] }

  -- A confirmation whose id is the awaited one.
  unfoldable pub on_confirmed : Udp → Run Udp ClientState
  on_confirmed s =
      let t = record s { awaited_conirm_id = no_id } in
      if t.awaiting_over
      then returns over (record t { waiting_for_confirmation = false })
      else if t.error_sent
      then returns ClientState.waiting_for_confirmation
          (send_bye net (record t { error_sent = false }))
      else if t.waiting_for_reply
      then returns ClientState.waiting_for_reply
          (record t { waiting_for_reply = false; waiting_for_confirmation = false })
      else returns ready_for_input (record t { waiting_for_confirmation = false })

  -- CONFIRM. The two bytes of the id are read whether or not they are there.
  unfoldable pub on_confirm : Bytes → Udp → Run Udp ClientState
  on_confirm message s =
      if ltb (length message) 3
      then undefined
      else if message_id message == s.awaited_conirm_id
      then on_confirmed s
      else returns ClientState.waiting_for_confirmation s

  -- A reply that the machine allows, to the awaited request or to another one.
  unfoldable pub on_awaited_reply : Effect → ℕ → Udp → Run Udp ClientState
  on_awaited_reply shown id s =
      let t = remember id (send_confirmation net id (print shown s)) in
      returns ready_for_input (record t { waiting_for_reply = false; awaited_reply_id = no_id })

  -- A negative reply, from the reaction on.
  unfoldable pub on_nreply : ℕ → ℕ → Bytes → Action → Udp → Run Udp ClientState
  on_nreply id ref_id response any s =
      if ref_id == s.awaited_reply_id
      then on_awaited_reply (ClientOutput.reply_error response) id s
      else returns ClientState.waiting_for_reply (send_confirmation net id s)
  on_nreply id ref_id response error_user s =
      fail_with (lit "Invalid state for negative reply message") (send_confirmation net id s)
  on_nreply id ref_id response _ s = undefined

  -- A positive reply, from the reaction on.
  unfoldable pub on_reply : ℕ → ℕ → Bytes → Action → Udp → Run Udp ClientState
  on_reply id ref_id response any s =
      if ref_id == s.awaited_reply_id
      then on_awaited_reply (ClientOutput.reply_success response) id s
      else returns ready_for_input (send_confirmation net id s)
  on_reply id ref_id response error_user s =
      fail_with (lit "Invalid state for positive reply message") (send_confirmation net id s)
  on_reply id ref_id response _ s = undefined

  -- REPLY
  unfoldable pub on_reply_message : Bytes → Udp → Run Udp ClientState
  on_reply_message message s =
      if ltb (length message) 6
      then fail_with (lit "Unexpected reply message format") s
      else let id = message_id message in
        let status = get_or message 3 0 in
        let ref_id = id_of (get_or message 4 0) (get_or message 5 0) in
        let result = parse_and_validate (drop 6 message) reply in
        let response = get_or result.0 0 [] in
        if result.1
        then (if status == 0
            then reacting nreply_server (on_nreply id ref_id response) s
            else if status == 1
            then reacting reply_server (on_reply id ref_id response) s
            else fail_with (lit "Invalid reply message format") (send_confirmation net id s))
        else fail_with (lit "Invalid content in reply message") s

  -- MSG, from the reaction on.
  unfoldable pub on_msg : ℕ → List Bytes → Action → Udp → Run Udp ClientState
  on_msg id response any s =
      if id_lookup id s.received_ids
      then returns ready_for_input (send_confirmation net id s)
      else returns ready_for_input (
          print (ClientOutput.message_from_server (get_or response 0 []) (get_or response 1 []))
            (remember id (send_confirmation net id s)))
  on_msg id response _ s = fail_with (lit "Invalid state for message message") s

  -- MSG
  unfoldable pub on_msg_message : Bytes → Udp → Run Udp ClientState
  on_msg_message message s =
      if ltb (length message) 3
      then fail_with (lit "Unexpected message format") s
      else let result = parse_and_validate (drop 3 message) msg in
        if result.1
        then reacting message_server (on_msg (message_id message) result.0) s
        else fail_with (lit "Invalid content in message") s

  abbrev first_error : ℕ → List Bytes → Udp → Udp
  first_error id response s = send_bye net (
      print (ClientOutput.error_from_server (get_or response 0 []) (get_or response 1 []))
        (remember id (send_confirmation net id s)))

  abbrev repeated_error : ℕ → Udp → Udp
  repeated_error id s =
      let t = send_bye net (send_confirmation net id s) in
      record t { waiting_for_confirmation = true }

  -- ERR, from the reaction on.
  unfoldable pub on_err : ℕ → List Bytes → Action → Udp → Run Udp ClientState
  on_err id response any s =
      if id_lookup id s.received_ids
      then returns ClientState.waiting_for_confirmation (repeated_error id s)
      else returns ready_for_input (first_error id response s)
  on_err id response _ s =
      fail_with (lit "Invalid state for error message") (send_confirmation net id s)

  -- ERR
  unfoldable pub on_err_message : Bytes → Udp → Run Udp ClientState
  on_err_message message s =
      if ltb (length message) 4
      then fail_with (lit "Unexpected error message format") s
      else let id = message_id message in
        let result = parse_and_validate (drop 3 message) err in
        if result.1
        then reacting error_server (on_err id result.0) s
        else fail_with (lit "Invalid content in error message") (send_confirmation net id s)

  -- BYE
  unfoldable pub on_bye_message : Bytes → Udp → Run Udp ClientState
  on_bye_message message s =
      if ltb (length message) 3
      then fail_with (lit "Unexpected bye message format") s
      else let id = message_id message in returns over (send_confirmation net id (remember id s))

  -- Any other first byte.
  unfoldable pub on_unexpected : Bytes → Udp → Run Udp ClientState
  on_unexpected message s =
      if ltb (length message) 3
      then fail_with (lit "Unexpected format") s
      else fail_with (lit "Unexpected format") (send_confirmation net (message_id message) s)

  -- The first byte is read whether or not it is there.
  unfoldable pub process_received : Bytes → Udp → Run Udp ClientState
  process_received [] s = undefined
  process_received (first_byte ∷ rest) s =
      let message = first_byte ∷ rest in
      if first_byte == 0x00
      then on_confirm message s
      else if first_byte == 0x01
      then on_reply_message message s
      else if first_byte == 0x04
      then on_msg_message message s
      else if first_byte == 0xfe
      then on_err_message message s
      else if first_byte == 0xff
      then on_bye_message message s
      else on_unexpected message s

  unfoldable pub process_server_message : RecvFrom → Udp → Run Udp ClientState
  process_server_message failed s = returns over (print (cerr (lit "recvfrom failed")) s)
  process_server_message (datagram from message) s =
      held (process_received message (record s { server_address = from }))
