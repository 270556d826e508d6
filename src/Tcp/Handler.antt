-- ===== src/Tcp/Handler.antt =====
-- TCPProtocolHandler.cpp: the object, `send_message` and `process_user_input`.
use ipk.Common.{
  Bool, true, false, not, [], ◌∷◌, ◌++◌, none, some, ◌==◌, if◌then◌else◌, Bytes, lit, bytes_eq,
  get_or,
}
use ipk.Text.{upper, find, before, after}
use ipk.Fsm.{
  Action, authorize_user, join_user, message_user, any, warn_client, Fsm, initial, validate_action,
}
use ipk.Protocol.{
  ClientState, ready_for_input, Effect, sent, cerr, Log, Network, Run, returns, exits, undefined,
  ◌>>=◌, ◌>>◌, return, no_return,
}
use ipk.ClientOutput
use ipk.Tcp.Validator.{crlf, authorize_validate, join_validate, message_validate, rename}

-- The object, its validator's display name and what was done outside.
pub record Tcp : Type 0 where
  pub display_name : Bytes
  pub fsm : Fsm
  pub waiting_for_reply : Bool
  pub log : Log

unfoldable pub new_tcp : Tcp
new_tcp = record { display_name = []; fsm = initial; waiting_for_reply = false; log = [] }

-- `reaction = fsm.validate_action(action)`
unfoldable pub react : Action → Tcp → Run Tcp Action
react action s = elim (validate_action s.fsm action) [
  | none ↦ undefined
  | some (reaction, g) ↦ returns reaction (record s { fsm = g })
]

unfoldable pub print : Effect → Tcp → Run Tcp (Unit {0})
print e s = returns tt (record s { log = e ∷ s.log })

unfoldable pub set_waiting : Bool → Tcp → Run Tcp (Unit {0})
set_waiting b s = returns tt (record s { waiting_for_reply = b })

abbrev pub bye : Bytes
bye = lit "BYE" ++ crlf

module _ (net : Network) where
  unfoldable pub send_message : Bytes → Tcp → Run Tcp (Unit {0})
  send_message message s =
      let t = record s { log = sent 0 message ∷ s.log } in
      if net s.log message
      then returns tt t
      else exits (record t { log = cerr (lit "Error sending message to the server") ∷ t.log })

  -- `/auth`, from the reaction on. The validator is called twice.
  unfoldable pub on_auth : Bytes → Action → Tcp → Run Tcp ClientState
  on_auth argument any s =
      let first = authorize_validate s.display_name argument in
      let second = authorize_validate first.1 argument in
      let t = record s { display_name = second.1 } in
      if second.0.1
      then (do send_message first.0.0; set_waiting true; return ClientState.waiting_for_reply) t
      else (do print (ClientOutput.internal_error_message first.0.0); return ready_for_input) t
  on_auth argument warn_client s =
      (do
        print (
            ClientOutput.internal_error_message
              (lit "You are not authorized to authorize at this state!"))
        return ready_for_input)
        s
  on_auth argument _ s = no_return s

  -- `/join`, from the reaction on.
  unfoldable pub on_join : Bytes → Action → Tcp → Run Tcp ClientState
  on_join argument any s =
      let response = join_validate s.display_name argument in
      if response.1
      then (do send_message response.0; set_waiting true; return ClientState.waiting_for_reply) s
      else (do print (ClientOutput.internal_error_message response.0); return ready_for_input) s
  on_join argument warn_client s =
      (do
        print (
            ClientOutput.internal_error_message
              (lit "You are not authorized to join at this state!"))
        return ready_for_input)
        s
  on_join argument _ s = no_return s

  -- `/rename`: a successful one reaches no `return`.
  unfoldable pub on_rename : Bytes → Tcp → Run Tcp ClientState
  on_rename argument s =
      let (renamed, name) = rename s.display_name argument in
      let t = record s { display_name = name } in
      if not renamed
      then (do
        print (ClientOutput.internal_error_message (lit "Invalid display name format"))
        return ready_for_input)
          t
      else no_return t

  -- A message of the user, from the reaction on.
  unfoldable pub on_message : Bytes → Action → Tcp → Run Tcp ClientState
  on_message message any s =
      let response = message_validate s.display_name message in
      if response.1
      then (do send_message response.0; return ready_for_input) s
      else (do print (ClientOutput.internal_error_message response.0); return ready_for_input) s
  on_message message warn_client s =
      (do
        print (
            ClientOutput.internal_error_message
              (lit "You are not authorized to send a message at this state!"))
        return ready_for_input)
        s
  on_message message _ s = returns ready_for_input s

  unfoldable pub print_help : Tcp → Run Tcp (Unit {0})
  print_help s = returns tt (record s { log = ClientOutput.print_help s.log })

  unfoldable pub process_user_input : Bytes → Tcp → Run Tcp ClientState
  process_user_input message =
      if bytes_eq message (lit "/exit")
      then (do send_message bye; return ClientState.over)
      else let pos = find b' ' message in
        let command = upper (before pos message) in
        let argument = after pos message in
        if bytes_eq command (lit "/AUTH")
        then (do reaction ← react authorize_user; on_auth argument reaction)
        else if bytes_eq command (lit "/JOIN")
        then (do reaction ← react join_user; on_join argument reaction)
        else if bytes_eq command (lit "/RENAME")
        then on_rename argument
        else if bytes_eq command (lit "/HELP")
        then (do print_help; return ready_for_input)
        else if get_or message 0 0 == b'/'
        then (do
          print (ClientOutput.internal_error_message (lit "Invalid command"))
          return ready_for_input)
        else do reaction ← react message_user; on_message message reaction
