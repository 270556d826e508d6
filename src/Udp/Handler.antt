-- ===== src/Udp/Handler.antt =====
-- UDPProtocolHandler.h and UDPProtocolHandler.cpp: the object, what it sends, and the user's input.
use ipk.Common.{
  ℕ, ◌+◌, ◌%◌, Bool, true, false, not, ◌||◌, List, [], ◌∷◌, none, some, ◌==◌, if◌then◌else◌, Bytes,
  lit, bytes_eq, length, get_or,
}
use ipk.Text.{upper, find, before, after}
use ipk.Udp.Fields.{split_message}
use ipk.Fsm.{
  Action, authorize_user, join_user, message_user, any, warn_client, Fsm, initial, validate_action,
}
use ipk.Protocol.{ClientState, ready_for_input, Effect, sent, Log, Network, Run, returns, undefined}
use ipk.ClientOutput
use ipk.Udp.Validator.{
  header, form_bye_message, form_error_message, authorize_validate, join_validate, message_validate,
  rename,
}

-- `server_address` is a number that stands for the address and port; 0 is not one of UDP's.
pub record Udp : Type 0 where
  pub display_name : Bytes
  pub fsm : Fsm
  pub server_address : ℕ
  pub received_ids : List ℕ
  pub awaited_conirm_id : ℕ  -- uint16
  pub awaited_reply_id : ℕ  -- uint16
  pub renamer3000 : ℕ  -- uint16
  pub waiting_for_reply : Bool
  pub last_message : Bytes
  pub error_sent : Bool
  pub awaiting_over : Bool
  pub waiting_for_confirmation : Bool
  pub error_while_waiting : Bool
  pub error_message : Bytes
  pub log : Log

unfoldable pub new_udp : ℕ → Udp
new_udp address = record {
  display_name = [];
  fsm = initial;
  server_address = address;
  received_ids = [];
  awaited_conirm_id = 0;
  awaited_reply_id = 0;
  renamer3000 = 0;
  waiting_for_reply = false;
  last_message = [];
  error_sent = false;
  awaiting_over = false;
  waiting_for_confirmation = false;
  error_while_waiting = false;
  error_message = [];
  log = [];
}

-- -1 as a uint16.
abbrev pub no_id : ℕ
no_id = 65535

-- `renamer3000++`
abbrev pub next_id : ℕ → ℕ
next_id id = (id + 1) % 65536

unfoldable pub id_lookup : ℕ → List ℕ → Bool
id_lookup id [] = false
id_lookup id (i ∷ ids) = i == id || id_lookup id ids

abbrev pub print : Effect → Udp → Udp
print e s = record s { log = e ∷ s.log }

-- `reaction = fsm.validate_action(action)`, and what follows it.
unfoldable pub reacting : Action → (Action → Udp → Run Udp ClientState) → Udp → Run Udp ClientState
reacting action rest s = elim (validate_action s.fsm action) [
  | none ↦ undefined
  | some (reaction, g) ↦ rest reaction (record s { fsm = g })
]

module _ (net : Network) where
  -- A failure is printed, and nothing else follows from it.
  unfoldable pub send_message : Bytes → Udp → Udp
  send_message message s =
      let t = print (sent s.server_address message) s in
      if net s.log message
      then t
      else print (ClientOutput.internal_error_message (lit "Error while sending the message")) t

  unfoldable pub send_confirmation : ℕ → Udp → Udp
  send_confirmation id = send_message (header 0 id [])

  unfoldable pub resend_last_message : Udp → Udp
  resend_last_message s = send_message s.last_message s

  -- The last lines of each branch that sends a message with a new id and waits for its confirmation,
  -- but for the flags of that branch.
  unfoldable pub send_awaited : Bytes → Udp → Udp
  send_awaited message s =
      let t = send_message message s in
      record t {
        awaited_conirm_id = s.renamer3000;
        last_message = message;
        renamer3000 = next_id s.renamer3000;
      }

  unfoldable pub send_error_message : Bytes → Udp → Udp
  send_error_message error s =
      if s.waiting_for_confirmation
      then record s { error_message = error; error_while_waiting = true }
      else let t = send_awaited (form_error_message s.renamer3000 s.display_name error) s in
        record t { error_sent = true; waiting_for_confirmation = true }

  -- BYE, whose confirmation ends the client.
  unfoldable pub send_bye : Udp → Udp
  send_bye s =
      let t = send_awaited (form_bye_message s.renamer3000) s in record t { awaiting_over = true }

  abbrev refuse : Bytes → Udp → Run Udp ClientState
  refuse text s = returns ready_for_input (print (ClientOutput.internal_error_message text) s)

  -- A request that the server replies to.
  abbrev request : Bytes → Udp → Run Udp ClientState
  request message s =
      let t = send_awaited message s in
      returns ClientState.waiting_for_confirmation (record t {
        waiting_for_reply = true;
        awaited_reply_id = s.renamer3000;
        waiting_for_confirmation = true;
      })

  -- `/auth`, from the reaction on.
  unfoldable pub on_auth : Bytes → Action → Udp → Run Udp ClientState
  on_auth argument any s =
      let parts = split_message argument in
      if not (length parts == 3)
      then refuse (lit "Invalid message format") s
      else let (result, name) =
          authorize_validate s.display_name 0x02 s.renamer3000 (get_or parts 0 [])
            (get_or parts 2 []) (get_or parts 1 []) in
        let t = record s { display_name = name } in
        if result.1 then request result.0 t else refuse result.0 t
  on_auth argument warn_client s =
      refuse (lit "You are not authorized to authorize at this state!") s
  on_auth argument _ s = undefined

  -- `/join`, from the reaction on.
  unfoldable pub on_join : Bytes → Action → Udp → Run Udp ClientState
  on_join argument any s =
      let parts = split_message argument in
      if not (length parts == 1)
      then refuse (lit "Invalid message format") s
      else let result = join_validate s.display_name 0x03 s.renamer3000 (get_or parts 0 []) in
        if result.1 then request result.0 s else refuse result.0 s
  on_join argument warn_client s = refuse (lit "You are not authorized to join at this state!") s
  on_join argument _ s = undefined

  -- `/rename`: a successful one reaches no `return`.
  unfoldable pub on_rename : Bytes → Udp → Run Udp ClientState
  on_rename argument s =
      let (renamed, name) = rename s.display_name argument in
      if not renamed
      then refuse (lit "Invalid display name format") (record s { display_name = name })
      else undefined

  -- A message, which the server only confirms.
  abbrev announce : Bytes → Udp → Run Udp ClientState
  announce message s =
      let t = send_awaited message s in
      returns ClientState.waiting_for_confirmation (record t {
        waiting_for_reply = false;
        awaited_reply_id = no_id;
        waiting_for_confirmation = true;
      })

  -- A message of the user, from the reaction on.
  unfoldable pub on_message : Bytes → Action → Udp → Run Udp ClientState
  on_message message any s =
      let result = message_validate s.display_name 0x04 s.renamer3000 message in
      if result.1 then announce result.0 s else refuse result.0 s
  on_message message warn_client s =
      refuse (lit "You are not authorized to send a message at this state!") s
  on_message message _ s = undefined

  -- `/exit`
  unfoldable pub leave : Udp → Run Udp ClientState
  leave s =
      let t = send_bye s in
      returns ClientState.waiting_for_confirmation (record t { waiting_for_confirmation = true })

  unfoldable pub process_user_input : Bytes → Udp → Run Udp ClientState
  process_user_input message s =
      if bytes_eq message (lit "/exit")
      then leave s
      else if s.error_while_waiting
      then returns ClientState.waiting_for_confirmation (send_error_message s.error_message s)
      else let pos = find b' ' message in
        let command = upper (before pos message) in
        let argument = after pos message in
        if bytes_eq command (lit "/AUTH")
        then reacting authorize_user (on_auth argument) s
        else if bytes_eq command (lit "/JOIN")
        then reacting join_user (on_join argument) s
        else if bytes_eq command (lit "/RENAME")
        then on_rename argument s
        else if bytes_eq command (lit "/HELP")
        then returns ready_for_input (record s { log = ClientOutput.print_help s.log })
        else if get_or message 0 0 == b'/'
        then refuse (lit "Invalid command") s
        else reacting message_user (on_message message) s
