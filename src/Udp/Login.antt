-- ===== src/Udp/Login.antt =====
-- The authorisation of a UDP client, from the command to the reply.
use ipk.Common.{
  ℕ, ◌<◌, ◌/◌, ◌%◌, true, false, [], ◌∷◌, ◌++◌, some, ◌≡◌, refl, ap, ◌∙◌, arith, Bytes, lit,
  bytes_eq, if◌then◌else◌,
}
use ipk.Text.{to_upper, find, before, after}
use ipk.Udp.Fields.{validate_content}
use ipk.Grammar.Split.{three_words}
use ipk.Grammar.Credentials.{Credentials}
use ipk.Udp.Fields.Same.{Credentials-valid, split-Credentials}
use ipk.Commands.{auth_line}
use ipk.Fsm.{Fsm, authorize_user, any, start, auth, opened, is_restricted, validate_action}
use ipk.Fsm.Invariant.{fsm}
use ipk.ClientOutput
use ipk.Protocol.{waiting_for_confirmation, waiting_for_reply, ready_for_input, Network, returns}
use ipk.Udp.Validator.{header, field, authorize_validate, parse_and_validate, reply}
use ipk.Udp.Handler.{
  Udp, no_id, reacting, send_confirmation, send_awaited, print, on_auth, process_user_input,
}
use ipk.Udp.Received.{
  datagram, held, on_confirm, on_confirmed, on_awaited_reply, on_reply, on_reply_message,
  process_received, process_server_message,
}
use ipk.Udp.Cases.{reacted}
use ipk.Udp.RoundTrip.{parse_and_validate-reply}
use ipk.Udp.Sending.{send_message-log, send_confirmation-log}

-- The request that a client makes of its credentials.
abbrev pub auth_datagram : ℕ → Bytes → Bytes → Bytes → Bytes
auth_datagram n id secret name = header 0x02 n (field id (field name (field secret [])))

-- A positive reply to the request with that id.
abbrev pub ok_datagram : ℕ → ℕ → Bytes → Bytes
ok_datagram n ref text = header 0x01 n (1 ∷ ref / 256 % 256 ∷ ref % 256 ∷ field text [])

authorize_validate-Credentials :
    {id secret name : Bytes} (own : Bytes) (n : ℕ)
    → Credentials id secret name
    → authorize_validate own 0x02 n id name secret ≡ ((auth_datagram n id secret name, true), name)
unfolding authorize_validate
authorize_validate-Credentials own n c = let (i, k, d) = Credentials-valid c in ground arith

module _ (net : Network) where
  -- The client that has asked, the one that has the confirmation, and the one that has the reply.
  abbrev pub asked : Bytes → Bytes → Bytes → Fsm → Udp → Udp
  asked id secret name f s =
      record (send_awaited net (auth_datagram s.renamer3000 id secret name)
        (record s { display_name = name; fsm = f })) {
          waiting_for_reply = true;
          awaited_reply_id = s.renamer3000;
          waiting_for_confirmation = true;
        }

  abbrev pub confirmed_request : ℕ → Udp → Udp
  confirmed_request from s = record s {
    server_address = from;
    awaited_conirm_id = no_id;
    waiting_for_reply = false;
    waiting_for_confirmation = false;
  }

  abbrev pub granted : ℕ → ℕ → Bytes → Fsm → Udp → Udp
  granted from n text f s =
      let t =
        send_confirmation net n
          (print (ClientOutput.reply_success text) (record s { server_address = from; fsm = f })) in
      record t {
        received_ids = t.received_ids ++ n ∷ [];
        waiting_for_reply = false;
        awaited_reply_id = no_id;
      }

  auth_command :
      (argument : Bytes) (s : Udp)
      → s.error_while_waiting ≡ false
      → process_user_input net (auth_line argument) s
        ≡ reacting authorize_user (on_auth net argument) s
  unfolding process_user_input lit find before after to_upper bytes_eq
  auth_command argument s e = rw e

  on_auth-three_words :
      {id secret name : Bytes} (s : Udp)
      → Credentials id secret name
      → on_auth net (three_words id secret name) any s
        ≡ returns waiting_for_confirmation (asked id secret name s.fsm s)
  unfolding on_auth
  on_auth-three_words {id} {secret} {name} s c =
      rw (split-Credentials c)
        (ground (arith, authorize_validate-Credentials s.display_name s.renamer3000 c))

  -- In START with nothing expected.
  pub request_sent :
      {id secret name : Bytes} (s : Udp)
      → Credentials id secret name
      → s.error_while_waiting ≡ false
      → s.fsm.current_state ≡ start
      → is_restricted s.fsm.expected_action ≡ false
      → process_user_input net (auth_line (three_words id secret name)) s
        ≡ returns waiting_for_confirmation
            (asked id secret name (fsm auth (some start) (any ∷ [])) s)
  unfolding validate_action
  request_sent {id} {secret} {name} s c e at_start free =
      auth_command (three_words id secret name) s e
      ∙ reacted authorize_user any (fsm auth (some start) (any ∷ [])) s _ (ground arith)
      ∙ on_auth-three_words (record s { fsm = fsm auth (some start) (any ∷ []) }) c

  request_confirmed :
      (from n : ℕ) (s : Udp)
      → n < 65536
      → s.awaited_conirm_id ≡ n
      → s.awaiting_over ≡ false
      → s.error_sent ≡ false
      → s.waiting_for_reply ≡ true
      → process_server_message net (datagram from (header 0 n [])) s
        ≡ returns waiting_for_reply (confirmed_request from s)
  unfolding process_server_message process_received on_confirm on_confirmed
  request_confirmed from n s h a o e w = ground arith

  request_granted :
      (from n ref : ℕ) (text : Bytes) (s : Udp)
      → n < 65536
      → ref < 65536
      → parse_and_validate (field text []) reply ≡ (text ∷ [], true)
      → s.fsm ≡ fsm auth (some start) (any ∷ [])
      → s.awaited_reply_id ≡ ref
      → process_received net (ok_datagram n ref text) (record s { server_address = from })
        ≡ returns ready_for_input (granted from n text (fsm opened (some auth) (any ∷ [])) s)
  unfolding process_received on_reply_message reacting validate_action on_reply on_awaited_reply
  request_granted from n ref text s h k p f a = ground arith

  -- The authorisation by UDP. In START with nothing expected and with nothing under way, /auth
  -- with well-formed credentials sends one AUTH datagram with the next id and awaits its
  -- confirmation. The confirmation makes the client wait for the reply. A positive reply to that
  -- id, with valid content, is then printed and confirmed, takes the machine to OPEN, and leaves
  -- the client ready for input. The ids are uint16.
  pub udp_login_opens :
      {id secret name : Bytes} (from back n : ℕ) (text : Bytes) (s : Udp)
      → Credentials id secret name
      → validate_content text ≡ true
      → n < 65536
      → s.renamer3000 < 65536
      → s.fsm.current_state ≡ start
      → is_restricted s.fsm.expected_action ≡ false
      → s.error_while_waiting ≡ false
      → s.awaiting_over ≡ false
      → s.error_sent ≡ false
      → let sender = asked id secret name (fsm auth (some start) (any ∷ [])) s in
        let waiting = confirmed_request from sender in
        (process_user_input net (auth_line (three_words id secret name)) s
          ≡ returns waiting_for_confirmation sender)
        × (process_server_message net (datagram from (header 0 s.renamer3000 [])) sender
            ≡ returns waiting_for_reply waiting)
        × (process_server_message net (datagram back (ok_datagram n s.renamer3000 text)) waiting
            ≡ returns ready_for_input
                (granted back n text (fsm opened (some auth) (any ∷ [])) waiting))
  unfolding send_awaited process_server_message
  udp_login_opens {id} {secret} {name} from back n text s c h nf i at_start free e o es =
      let sent =
        send_message-log net (auth_datagram s.renamer3000 id secret name)
          (record s { display_name = name; fsm = fsm auth (some start) (any ∷ []) }) in
      let sender = asked id secret name (fsm auth (some start) (any ∷ [])) s in
      (
        request_sent s c e at_start free,
        request_confirmed from s.renamer3000 sender i refl (ap (λ t. t.awaiting_over) sent ∙ o)
            (ap (λ t. t.error_sent) sent ∙ es) refl,
        ap held (
              request_granted back n s.renamer3000 text (confirmed_request from sender) nf i
                (parse_and_validate-reply text h) (ap (λ t. t.fsm) sent) refl)
            ∙ ap
                (λ w. returns (if w then waiting_for_confirmation else ready_for_input) (
                  granted back n text (fsm opened (some auth) (any ∷ []))
                    (confirmed_request from sender)))
                (ap (λ t. t.waiting_for_confirmation)
                  (send_confirmation-log net n (
                    print (ClientOutput.reply_success text)
                      (record (confirmed_request from sender) {
                        server_address = back;
                        fsm = fsm opened (some auth) (any ∷ []);
                      })))),
      )
