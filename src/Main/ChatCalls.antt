-- ===== src/Main/ChatCalls.antt =====
-- The calls of the UDP handler in a run that logs in, sends a message and is interrupted.
use ipk.Common.{◌<◌, ℕ, true, false, [], ◌∷◌, some, ◌≡◌, refl, ap, ◌∙◌, arith, Bytes}
use mathlib.Core.Path.{subst}
use ipk.Udp.Fields.{validate_content}
use ipk.Grammar.Credentials.{Credentials}
use ipk.Commands.{Plain}
use ipk.Fsm.{any, auth, opened, initial}
use ipk.Fsm.Invariant.{fsm}
use ipk.ClientOutput
use ipk.Protocol.{
  sent, waiting_for_confirmation, waiting_for_reply, ready_for_input, Network, returns,
}
use ipk.Main.Unanswered.{asking, asked-asking}
use ipk.Udp.Validator.{header, form_bye_message}
use ipk.Udp.Handler.{Udp, no_id, new_udp, send_message, send_confirmation, process_user_input}
use ipk.Udp.Received.{datagram, process_server_message}
use ipk.Udp.Client.{Sends}
use ipk.Udp.Duplicates.{chatting}
use ipk.Udp.Exchange.{
  message_datagram, announced, process_user_input-Plain, message_announced, confirmation_accepted,
}
use ipk.Udp.Login.{auth_datagram, ok_datagram, confirmed_request, granted, udp_login_opens}
use ipk.Udp.Leaving.{left}

-- The object after the reply, after the message, and at the end.
abbrev pub welcomed : ℕ → ℕ → ℕ → Bytes → Bytes → Bytes → Bytes → Udp
welcomed address from n id secret name welcome = record (new_udp address) {
  display_name = name;
  fsm = fsm opened (some auth) (any ∷ []);
  server_address = from;
  received_ids = n ∷ [];
  awaited_conirm_id = no_id;
  awaited_reply_id = no_id;
  renamer3000 = 1;
  last_message = auth_datagram 0 id secret name;
  log =
      sent from (header 0 n [])
      ∷ ClientOutput.reply_success welcome
      ∷ sent address (auth_datagram 0 id secret name)
      ∷ [];
}

abbrev pub spoken : ℕ → ℕ → ℕ → Bytes → Bytes → Bytes → Bytes → Bytes → Udp
spoken address from n id secret name welcome text =
    let s = welcomed address from n id secret name welcome in
    record s {
      fsm = chatting;
      awaited_conirm_id = 1;
      renamer3000 = 2;
      waiting_for_confirmation = true;
      last_message = message_datagram name 1 text;
      log = sent from (message_datagram name 1 text) ∷ s.log;
    }

abbrev pub heard : ℕ → ℕ → ℕ → Bytes → Bytes → Bytes → Bytes → Bytes → Udp
heard address from n id secret name welcome text =
    record (spoken address from n id secret name welcome text) {
      awaited_conirm_id = no_id;
      waiting_for_confirmation = false;
    }

abbrev pub conversed : ℕ → ℕ → ℕ → Bytes → Bytes → Bytes → Bytes → Bytes → Udp
conversed address from n id secret name welcome text =
    let bye = form_bye_message 2 in
    record (new_udp address) {
      display_name = name;
      fsm = chatting;
      server_address = from;
      received_ids = n ∷ [];
      awaited_conirm_id = no_id;
      awaited_reply_id = no_id;
      renamer3000 = 3;
      last_message = bye;
      awaiting_over = true;
      log =
          sent from bye
          ∷ sent from (message_datagram name 1 text)
          ∷ sent from (header 0 n [])
          ∷ ClientOutput.reply_success welcome
          ∷ sent address (auth_datagram 0 id secret name)
          ∷ [];
    }

module _ (net : Network) (address from n : ℕ) (id secret name welcome text : Bytes)
    (sends : Sends net) where
  granted-welcomed :
      granted net from n welcome
        (fsm opened (some auth) (any ∷ []))
        (confirmed_request net from (asking 0 address id secret name))
      ≡ welcomed address from n id secret name welcome
  unfolding send_confirmation send_message new_udp
  granted-welcomed = rw (sends _ (header 0 n [])) refl

  announced-spoken :
      announced net text (welcomed address from n id secret name welcome)
      ≡ spoken address from n id secret name welcome text
  unfolding new_udp
  announced-spoken = rw (sends _ (message_datagram name 1 text)) refl

  pub left-conversed :
      left net from (heard address from n id secret name welcome text)
      ≡ conversed address from n id secret name welcome text
  unfolding form_bye_message new_udp
  left-conversed = rw (sends _ (form_bye_message 2)) refl

  module _ (credentials : Credentials id secret name)
      (welcome_valid : validate_content welcome ≡ true) (plain : Plain text)
      (text_valid : validate_content text ≡ true) (fits : n < 65536) where
    -- The calls of the handler that end the login.
    pub login_calls :
        (process_server_message net
            (datagram from (header 0 0 []))
            (asking 0 address id secret name)
          ≡ returns waiting_for_reply
              (confirmed_request net from (asking 0 address id secret name)))
        × (process_server_message net
              (datagram from (ok_datagram n 0 welcome))
              (confirmed_request net from (asking 0 address id secret name))
            ≡ returns ready_for_input (welcomed address from n id secret name welcome))
    unfolding new_udp initial
    login_calls =
        let (_, confirmed, replied) =
          udp_login_opens net from from n welcome (new_udp address) credentials welcome_valid fits
            (omega arith) refl refl refl refl refl in
        let e = asked-asking net address id secret name sends in
        (
          subst
              (λ u.
                process_server_message net (datagram from (header 0 0 [])) u
                ≡ returns waiting_for_reply (confirmed_request net from u))
              e confirmed,
          subst
                (λ u.
                  process_server_message net (datagram from (ok_datagram n 0 welcome))
                    (confirmed_request net from u)
                  ≡ returns ready_for_input (
                      granted net from n welcome (fsm opened (some auth) (any ∷ []))
                        (confirmed_request net from u)))
                e replied
              ∙ ap (returns ready_for_input) granted-welcomed,
        )

    -- The calls of the handler for the message.
    pub message_calls :
        (process_user_input net text (welcomed address from n id secret name welcome)
          ≡ returns waiting_for_confirmation (spoken address from n id secret name welcome text))
        × (process_server_message net
              (datagram from (header 0 1 []))
              (spoken address from n id secret name welcome text)
            ≡ returns ready_for_input (heard address from n id secret name welcome text))
    unfolding new_udp
    message_calls =
        let s = welcomed address from n id secret name welcome in
        (
          process_user_input-Plain net text s plain refl
              ∙ message_announced net text s text_valid refl refl
              ∙ ap (returns waiting_for_confirmation) announced-spoken,
          confirmation_accepted net from 1 (spoken address from n id secret name welcome text)
              (omega arith) refl refl refl refl,
        )
