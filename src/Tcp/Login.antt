-- ===== src/Tcp/Login.antt =====
-- The authorisation of a TCP client, from the command to the reply.
use ipk.Common.{true, false, [], ◌∷◌, ◌++◌, some, ◌≡◌, refl, ap, ◌∙◌, arith, Bytes, lit, bytes_eq}
use ipk.Text.{upper, to_upper, find, before, after}
use ipk.Grammar.{split_message, validate_content}
use ipk.Grammar.Split.{three_words, split_message-append}
use ipk.Grammar.Credentials.{Credentials, split_message-Credentials}
use ipk.Fsm.{
  Fsm, authorize_user, any, start, auth, opened, is_restricted, validate_action, reply_server,
  message_user,
}
use ipk.Fsm.Invariant.{fsm}
use ipk.ClientOutput
use ipk.Protocol.{waiting_for_reply, ready_for_input, Network, returns, sent, ◌>>=◌}
use ipk.Tcp.Validator.{crlf, authorize_validate, validate_reply}
use ipk.Tcp.Content.{content_of-split_message}
use ipk.Tcp.RoundTrip.{length-split_message}
use ipk.Tcp.Handler.{Tcp, react, print, set_waiting, on_auth, process_user_input, on_message}
use ipk.Tcp.Received.{on_reply, process_received}
use ipk.Tcp.Outcome.{sent_then}
use ipk.Tcp.Cases.{reacted}
use ipk.Commands.{Plain, auth_line}

-- The line that the client sends, and the positive reply.
abbrev pub auth_request : Bytes → Bytes → Bytes → Bytes
auth_request id secret name =
    lit "AUTH " ++ (id ++ (lit " AS " ++ (name ++ (lit " USING " ++ (secret ++ crlf)))))

abbrev pub ok_line : Bytes → Bytes
ok_line text = lit "REPLY OK IS " ++ text

authorize_validate-three_words :
    {id secret name : Bytes} (own : Bytes)
    → Credentials id secret name
    → authorize_validate own (three_words id secret name)
      ≡ ((auth_request id secret name, true), name)
unfolding authorize_validate
authorize_validate-three_words own c = ground (arith, split_message-Credentials c)

split_message-ok_line :
    (text : Bytes)
    → split_message (ok_line text) ≡ lit "REPLY" ∷ lit "OK" ∷ lit "IS" ∷ split_message text
unfolding lit
split_message-ok_line text =
    split_message-append (lit "REPLY") _ (omega arith)
    ∙ ap (◌∷◌ (lit "REPLY")) (
        split_message-append (lit "OK") _ (omega arith)
        ∙ ap (◌∷◌ (lit "OK")) (split_message-append (lit "IS") text (omega arith)))

ok_words :
    (bytes_eq (upper (lit "REPLY")) (lit "MSG") ≡ false)
    × (bytes_eq (upper (lit "REPLY")) (lit "REPLY") ≡ true)
    × (bytes_eq (upper (lit "OK")) (lit "OK") ≡ true)
    × (bytes_eq (upper (lit "IS")) (lit "IS") ≡ true)
unfolding lit to_upper bytes_eq
ok_words = (refl, refl, refl, refl)

validate_reply-ok_line :
    (text : Bytes)
    → validate_content text ≡ true
    → validate_reply (ok_line text) ≡ some (text, true)
unfolding validate_reply
validate_reply-ok_line text h =
    rw (split_message-ok_line text)
      (ground (arith, length-split_message text, ok_words, content_of-split_message text, h))

-- The client that has asked, and the one whose request was granted.
abbrev pub asked : Bytes → Bytes → Bytes → Fsm → Tcp → Tcp
asked id secret name f s = record s {
  display_name = name;
  fsm = f;
  waiting_for_reply = true;
  log = sent 0 (auth_request id secret name) ∷ s.log;
}

abbrev pub granted : Bytes → Fsm → Tcp → Tcp
granted text f s = record s {
  fsm = f;
  waiting_for_reply = false;
  log = ClientOutput.reply_success text ∷ s.log;
}

module _ (net : Network) where
  -- An /auth that the machine allows, with well-formed credentials.
  pub on_auth-three_words :
      {id secret name : Bytes} (s : Tcp)
      → Credentials id secret name
      → net s.log (auth_request id secret name) ≡ true
      → on_auth net (three_words id secret name) any s
        ≡ returns waiting_for_reply (asked id secret name s.fsm s)
  unfolding on_auth set_waiting
  on_auth-three_words {id} {secret} {name} s c h =
      rw (authorize_validate-three_words s.display_name c) (
        rw (authorize_validate-three_words name c)
          (sent_then net (auth_request id secret name) (record s { display_name = name }) _ h))

  -- A positive reply that the machine allows.
  pub on_reply-ok_line :
      (text : Bytes) (s : Tcp)
      → validate_content text ≡ true
      → s.waiting_for_reply ≡ true
      → on_reply net ClientOutput.reply_success (ok_line text) any s
        ≡ returns ready_for_input (granted text s.fsm s)
  unfolding on_reply print set_waiting
  on_reply-ok_line text s h w = ground (arith, validate_reply-ok_line text h)

  pub auth_command :
      (argument : Bytes) (s : Tcp)
      → process_user_input net (auth_line argument) s
        ≡ (react authorize_user >>= on_auth net argument) s
  unfolding process_user_input lit find before after to_upper bytes_eq
  auth_command argument s = refl

  pub process_user_input-Plain :
      (text : Bytes) (s : Tcp)
      → Plain text
      → process_user_input net text s ≡ (react message_user >>= on_message net text) s
  unfolding process_user_input
  process_user_input-Plain text s p = ground arith

  pub ok_command :
      (text : Bytes) (s : Tcp)
      → process_received net (ok_line text) s
        ≡ (react reply_server >>= on_reply net ClientOutput.reply_success (ok_line text)) s
  unfolding process_received
  ok_command text s =
      rw (split_message-ok_line text) (ground (arith, length-split_message text, ok_words))

  -- In START with nothing expected, /auth with well-formed credentials makes the TCP client send
  -- AUTH, takes the machine to AUTH and awaits the reply, if the network takes the message; a
  -- positive reply with valid content is then printed and takes the machine to OPEN, where the
  -- client is ready for input.
  pub login_opens :
      {id secret name : Bytes} (text : Bytes) (s : Tcp)
      → Credentials id secret name
      → validate_content text ≡ true
      → s.fsm.current_state ≡ start
      → is_restricted s.fsm.expected_action ≡ false
      → net s.log (auth_request id secret name) ≡ true
      → let waiting = asked id secret name (fsm auth (some start) (any ∷ [])) s in
        (process_user_input net (auth_line (three_words id secret name)) s
          ≡ returns waiting_for_reply waiting)
        × (process_received net (ok_line text) waiting
            ≡ returns ready_for_input (granted text (fsm opened (some auth) (any ∷ [])) waiting))
  unfolding validate_action
  login_opens {id} {secret} {name} text s c h at_start free n =
      let g = fsm auth (some start) (any ∷ []) in
      let waiting = asked id secret name g s in
      (
        auth_command (three_words id secret name) s
            ∙ reacted authorize_user any g s _ (ground arith)
            ∙ on_auth-three_words (record s { fsm = g }) c n,
        ok_command text waiting
            ∙ reacted reply_server any (fsm opened (some auth) (any ∷ [])) waiting _ refl
            ∙ on_reply-ok_line text (record waiting { fsm = fsm opened (some auth) (any ∷ []) }) h
                refl,
      )
