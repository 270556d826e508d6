-- ===== src/Tcp/Received.antt =====
-- TCPProtocolHandler.cpp: `process_received`, one complete message from the server.
use ipk.Common.{false, [], ◌++◌, none, some, ltb, if◌then◌else◌, Bytes, lit, bytes_eq, length}
use ipk.Text.{upper}
use ipk.Grammar.{split_message}
use ipk.Fsm.{
  Action, message_server, bye_server, error_user, error_server, reply_server, nreply_server, any,
}
use ipk.Protocol.{
  ClientState, ready_for_input, Effect, Network, Run, returns, undefined, ◌>>=◌, ◌>>◌, return,
  no_return,
}
use ipk.ClientOutput
use ipk.Tcp.Validator.{
  crlf, part, form_error_message, validate_reply, validate_message_server, validate_error_server,
}
use ipk.Tcp.Handler.{Tcp, react, print, set_waiting, send_message, bye}

module _ (net : Network) where
  -- An error message to the server, and BYE.
  unfoldable pub give_up : Bytes → Tcp → Run Tcp ClientState
  give_up error = do send_message net error; send_message net bye; return ClientState.over

  abbrev err_from : Bytes → Bytes → Bytes
  err_from name text = lit "ERR FROM " ++ (name ++ (lit " IS " ++ (text ++ crlf)))

  -- MSG, from the reaction on. Where the state refuses the message, `user` is still empty.
  unfoldable pub on_server_message : Bytes → Action → Tcp → Run Tcp ClientState
  on_server_message message any s = elim (validate_message_server s.display_name message) [
    | none ↦ undefined
    | some ((response, user), valid) ↦
        if valid
        then (do
          print (ClientOutput.message_from_server user response)
          return (if s.waiting_for_reply then ClientState.waiting_for_reply else ready_for_input))
            s
        else give_up (err_from user (lit "Invalid message format")) s
  ]
  on_server_message message error_user s =
      give_up (err_from [] (lit "You cannot send messages at this state")) s
  on_server_message message _ s = returns ready_for_input s

  -- REPLY, from the reaction on; `shown` prints the content.
  unfoldable pub on_reply : (Bytes → Effect) → Bytes → Action → Tcp → Run Tcp ClientState
  on_reply shown message any s = elim (validate_reply message) [
    | none ↦ undefined
    | some (response, valid) ↦
        if valid
        then if s.waiting_for_reply
          then (do print (shown response); set_waiting false; return ready_for_input) s
          else returns ready_for_input s
        else give_up (err_from s.display_name (lit "Invalid reply format")) s
  ]
  on_reply shown message error_user s =
      give_up (err_from s.display_name (lit "You cannot send replies at this state")) s
  on_reply shown message _ s = no_return s

  -- ERR, from the reaction on.
  unfoldable pub on_error : Bytes → Action → Tcp → Run Tcp ClientState
  on_error message any s = elim (validate_error_server message) [
    | none ↦ undefined
    | some ((response, user), success) ↦
        if success
        then (do
          print (ClientOutput.error_from_server user response)
          send_message net bye
          return ClientState.over)
            s
        else give_up (err_from s.display_name (lit "Invalid error message")) s
  ]
  on_error message error_user s =
      give_up (err_from s.display_name (lit "You cannot send errors at this state")) s
  on_error message _ s = no_return s

  -- BYE, from the reaction on.
  unfoldable pub on_bye : Action → Tcp → Run Tcp ClientState
  on_bye any s = returns ClientState.over s
  on_bye error_user s =
      give_up (err_from s.display_name (lit "You cannot send BYE at this state")) s
  on_bye _ s = no_return s

  -- Any other command.
  unfoldable pub on_unknown : Tcp → Run Tcp ClientState
  on_unknown s =
      (do
        print (ClientOutput.internal_error_message (lit "Invalid command"))
        give_up (form_error_message s.display_name (lit "Invalid command")))
        s

  unfoldable pub process_received : Bytes → Tcp → Run Tcp ClientState
  process_received message =
      let parts = split_message message in
      let command = upper (part parts 0) in
      let ok_nok = if ltb 1 (length parts) then upper (part parts 1) else [] in
      if bytes_eq command (lit "MSG")
      then (do reaction ← react message_server; on_server_message message reaction)
      else if bytes_eq command (lit "REPLY")
      then if bytes_eq ok_nok (lit "OK")
        then (do
          reaction ← react reply_server
          on_reply ClientOutput.reply_success message reaction)
        else if bytes_eq ok_nok (lit "NOK")
        then (do reaction ← react nreply_server; on_reply ClientOutput.reply_error message reaction)
        else no_return
      else if bytes_eq command (lit "ERR")
      then (do reaction ← react error_server; on_error message reaction)
      else if bytes_eq command (lit "BYE")
      then (do reaction ← react bye_server; on_bye reaction)
      else on_unknown
