-- ===== src/Main/Chat.antt =====
-- A run of the whole program: a UDP client that logs in, sends a message and is interrupted.
use ipk.Common.{
  ◌*◌, ◌+◌, ◌<◌, ℕ, true, false, List, [], ◌∷◌, none, some, ◌≡◌, refl, sym, ap, ◌∙◌, arith, Bytes,
}
use ipk.Udp.Fields.{validate_content}
use ipk.Udp.Fields.Same.{content_same}
use ipk.Grammar.Credentials.{Credentials}
use ipk.Commands.{Plain}
use ipk.Protocol.{over, waiting_for_reply, ready_for_input, Network}
use ipk.Config.{Config, Found}
use ipk.Connect.Server.{endpoint-get_server_address}
use ipk.Interrupt.{sigint, polls_with, handle_signals}
use ipk.Main.{over_udp, runs, main}
use ipk.Main.Program.{World, ended, udp, after_loop, of_handler, run_handler, run_main}
use ipk.Main.Conversation.{content-ne-nil}
use ipk.Main.Unanswered.{typed, asking, after_line, first_round, port_fits}
use ipk.Stream.{Events, failed, ready, Loop, closes, run_event_loop}
use ipk.Stream
use ipk.Stream.Retransmission.{run_event_loop_step}
use ipk.Stream.Rounds.{round-line, round-received}
use ipk.Udp.Validator.{header, form_bye_message}
use ipk.Udp.Handler.{Udp, new_udp}
use ipk.Udp.Received.{RecvFrom, datagram}
use ipk.Udp.Client.{udp_handler, Sends}
use ipk.Udp.Login.{ok_datagram, confirmed_request}
use ipk.Udp.Session.{confirmation_of}
use ipk.Udp.Leaving.{interrupted_client_confirmed}
use ipk.Main.ChatCalls.{
  welcomed, spoken, heard, conversed, left-conversed, login_calls, message_calls,
}

-- What `poll` reports: a datagram from that address, a line of the user, and a signal that ends the call.
abbrev pub hears : ℕ → Bytes → List ℕ × Events RecvFrom
hears from m = ([], ready (some (datagram from m)) none)

abbrev pub says : Bytes → List ℕ × Events RecvFrom
says text = ([], ready none (some (some text)))

abbrev pub interrupts : List ℕ × Events RecvFrom
interrupts = (sigint ∷ [], failed)

module _ (net : Network) (address from n : ℕ) {id secret name : Bytes} (welcome text : Bytes)
    (sends : Sends net) (credentials : Credentials id secret name)
    (welcome_valid : validate_content welcome ≡ true) (plain : Plain text)
    (text_valid : validate_content text ≡ true) (fits : n < 65536) where
  -- The rounds of the loop.
  loop_conversed :
      (retrans : ℕ) (more : List (List ℕ × Events RecvFrom))
      → run_event_loop
          (udp_handler net)
          (polls_with false (
            typed id secret name
            ∷ hears from (header 0 0 [])
            ∷ hears from (ok_datagram n 0 welcome)
            ∷ says text
            ∷ hears from (header 0 1 [])
            ∷ interrupts
            ∷ hears from (confirmation_of (form_bye_message 2))
            ∷ more))
          (Stream.start retrans (new_udp address))
        ≡ closes (record (Stream.start retrans (new_udp address)) {
          state = over;
          first_time_interrupted = false;
          handler = conversed address from n id secret name welcome text;
        })
  unfolding form_bye_message polls_with Stream.start handle_signals new_udp
  loop_conversed retrans more =
      let p = udp_handler net in
      let logins =
        login_calls net address from n id secret name welcome text sends credentials welcome_valid
          plain text_valid fits in
      let messages =
        message_calls net address from n id secret name welcome text sends credentials welcome_valid
          plain text_valid fits in
      let u = asking 0 address id secret name in
      let s = welcomed address from n id secret name welcome in
      let t = spoken address from n id secret name welcome text in
      let first : Loop Udp = after_line retrans u in
      let second : Loop Udp = record first {
        state = waiting_for_reply;
        handler = confirmed_request net from u;
      } in
      let third : Loop Udp = record first { state = ready_for_input; handler = s } in
      let fourth : Loop Udp = record first { handler = t } in
      let fifth : Loop Udp = record third {
        handler = heard address from n id secret name welcome text;
      } in
      run_event_loop_step p _ _ _ first refl (first_round net retrans address credentials sends)
      ∙ run_event_loop_step p _ _ first second refl (round-received p _ first _ _ logins.0)
      ∙ run_event_loop_step p _ _ second third refl (round-received p _ second _ _ logins.1)
      ∙ run_event_loop_step p _ _ third fourth refl (
          round-line p text third _ _ refl
            (content-ne-nil text (sym (content_same text) ∙ text_valid)) messages.0)
      ∙ run_event_loop_step p _ _ fourth fifth refl (round-received p _ fourth _ _ messages.1)
      ∙ interrupted_client_confirmed net _ from none _ _ fifth refl refl refl (omega arith)
      ∙ ap
          (λ u. closes (record third { state = over; first_time_interrupted = false; handler = u }))
          (left-conversed net address from n id secret name welcome text sends)

-- The whole program, where the command line leads to the event loop with the UDP handler, the
-- server is given by an address that `inet_pton` can read, and the network sends everything. The
-- user types /auth with well-formed credentials; the confirmation and a positive reply, with valid
-- content, come from another address, as do all datagrams of the server from then on; the user types
-- a message that is valid and no command; its confirmation comes; the user interrupts the program,
-- and the confirmation of BYE comes. The program ends. It has sent AUTH, with id 0, to the configured
-- address, and to the other one the confirmation of the reply, the message under the user's name, with id 1,
-- and BYE, with id 2, has printed the reply, in this order, and has done nothing else.
pub chat_ends :
    {id secret name : Bytes} (w : World) (found : List Found) (c : Config) (fd a from n : ℕ)
    (welcome text : Bytes) (more : List (List ℕ × Events RecvFrom))
    → main w.lookup found ≡ runs c fd over_udp
    → w.inet_pton c.server_ip ≡ some a
    → Credentials id secret name
    → validate_content welcome ≡ true
    → Plain text
    → validate_content text ≡ true
    → n < 65536
    → Sends w.net
    → w.udp_events
      ≡ typed id secret name
        ∷ hears from (header 0 0 [])
        ∷ hears from (ok_datagram n 0 welcome)
        ∷ says text
        ∷ hears from (header 0 1 [])
        ∷ interrupts
        ∷ hears from (confirmation_of (form_bye_message 2))
        ∷ more
    → run_main w found
      ≡ ended (udp (conversed (a * 65536 + c.server_port) from n id secret name welcome text))
unfolding run_main run_handler Stream.start
chat_ends {id} {secret} {name} w found c fd a from n welcome text more m pton v wv p tv f h events =
    let server =
      endpoint-get_server_address w.inet_pton c.server_ip c.server_port a
        (port_fits w.lookup found c fd over_udp m) pton in
    rw (m, events, server)
      (ap (λ course. of_handler udp (after_loop course))
        (loop_conversed w.net _ from n welcome text h v wv p tv f _ more))
