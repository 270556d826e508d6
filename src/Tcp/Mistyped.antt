-- ===== src/Tcp/Mistyped.antt =====
-- What comes of an /auth that is mistyped first.
use ipk.Common.{true, false, [], ◌∷◌, some, ◌≡◌, refl, ◌∙◌, arith, Bytes, lit}
use ipk.Grammar.{validate_content}
use ipk.Grammar.Split.{three_words}
use ipk.Grammar.Credentials.{Credentials}
use ipk.Fsm.{
  Fsm, authorize_user, message_user, any, warn_client, start, auth, is_restricted, validate_action,
  reply_server, nreply_server, error_server,
}
use ipk.Fsm.Invariant.{fsm}
use ipk.ClientOutput
use ipk.Protocol.{waiting_for_reply, ready_for_input, Network, returns}
use ipk.Tcp.Validator.{authorize_validate}
use ipk.Tcp.Handler.{Tcp, print, on_auth, on_message, process_user_input}
use ipk.Tcp.Received.{process_received}
use ipk.Tcp.Cases.{reacted}
use ipk.Commands.{Plain, auth_line}
use ipk.Tcp.Login.{
  auth_request, ok_line, asked, granted, auth_command, process_user_input-Plain, ok_command,
  on_auth-three_words, on_reply-ok_line,
}

-- An argument that is refused changes no display name.
refused_argument :
    (own argument : Bytes)
    → (authorize_validate own argument).0.1 ≡ false
    → (authorize_validate own argument).1 ≡ own
unfolding authorize_validate
refused_argument own argument h = ground arith

-- The machine after the wrong /auth, after the right one, and after the reply.
abbrev mistyped : Fsm
mistyped = fsm auth (some start) (any ∷ [])

abbrev corrected : Fsm
corrected = fsm auth (some auth) (reply_server ∷ nreply_server ∷ error_server ∷ [])

abbrev locked : Fsm
locked = fsm auth (some auth) (any ∷ [])

-- An error of the client is printed.
abbrev pub warned : Bytes → Fsm → Tcp → Tcp
warned text f s = record s { fsm = f; log = ClientOutput.internal_error_message text ∷ s.log }

abbrev pub refusal : Bytes
refusal = lit "You are not authorized to send a message at this state!"

module _ (net : Network) where
  on_auth_refused :
      (argument : Bytes) (s : Tcp)
      → (authorize_validate s.display_name argument).0.1 ≡ false
      → on_auth net argument any s
        ≡ returns ready_for_input (warned (authorize_validate s.display_name argument).0.0 s.fsm s)
  unfolding on_auth print
  on_auth_refused argument s h = ground (arith, refused_argument s.display_name argument h)

  -- In START with nothing expected, after an /auth whose argument is refused, an /auth with
  -- well-formed credentials and the positive reply to it, with valid content, which is printed,
  -- the client is still not authorised: a message of the user, a line that is no command, is
  -- refused and not sent. The network takes the AUTH.
  pub mistyped_auth_locks_out :
      {id secret name : Bytes} (wrong welcome text : Bytes) (s : Tcp)
      → Credentials id secret name
      → (authorize_validate s.display_name wrong).0.1 ≡ false
      → validate_content welcome ≡ true
      → Plain text
      → s.fsm.current_state ≡ start
      → is_restricted s.fsm.expected_action ≡ false
      → let first = warned (authorize_validate s.display_name wrong).0.0 mistyped s in
        let second = asked id secret name corrected first in
        let third = granted welcome locked second in
        net first.log (auth_request id secret name) ≡ true
        → (process_user_input net (auth_line wrong) s ≡ returns ready_for_input first)
          × (process_user_input net (auth_line (three_words id secret name)) first
              ≡ returns waiting_for_reply second)
          × (process_received net (ok_line welcome) second ≡ returns ready_for_input third)
          × (process_user_input net text third
              ≡ returns ready_for_input (warned refusal locked third))
  unfolding validate_action on_message print
  mistyped_auth_locks_out {id} {secret} {name} wrong welcome text s c w h p at_start free n =
      let first = warned (authorize_validate s.display_name wrong).0.0 mistyped s in
      let second = asked id secret name corrected first in
      let third = granted welcome locked second in
      (
        auth_command net wrong s
            ∙ reacted authorize_user any mistyped s _ (ground arith)
            ∙ on_auth_refused wrong (record s { fsm = mistyped }) w,
        auth_command net (three_words id secret name) first
            ∙ reacted authorize_user any corrected first _ refl
            ∙ on_auth-three_words net (record first { fsm = corrected }) c n,
        ok_command net welcome second
            ∙ reacted reply_server any locked second _ refl
            ∙ on_reply-ok_line net welcome (record second { fsm = locked }) h refl,
        process_user_input-Plain net text third p
            ∙ reacted message_user warn_client locked third _ refl,
      )
