-- ===== src/Main/Conversation.antt =====
-- A run of the whole program: a TCP client that logs in, sends a message and is interrupted.
use ipk.Common.{
  ◌≢◌, ℕ, true, false, List, [], ◌∷◌, ◌++◌, none, some, ◌≡◌, refl, ap, ◌∙◌, arith, Bytes, lit,
  All-append,
}
use ipk.Text.Crlf.{Lacks}
use ipk.Grammar.{validate_content}
use ipk.Grammar.Accepts.{validate_content_iff}
use ipk.Grammar.Split.{three_words}
use ipk.Grammar.Credentials.{Credentials}
use ipk.Commands.{Plain, auth_line}
use ipk.Fsm.{any, start, auth, opened, initial, message_user, validate_action}
use ipk.Fsm.Invariant.{fsm}
use ipk.ClientOutput
use ipk.Protocol.{ClientState, sent, over, ready_for_input, waiting_for_reply, Network, returns}
use ipk.Config.{Config, Found}
use ipk.Interrupt.{sigint, polls_with, handle_signals}
use ipk.Main.{over_tcp, runs, main}
use ipk.Main.Program.{World, ended, tcp, after_loop, of_handler, run_handler, run_main}
use ipk.Stream.{
  Events, failed, ready, Poll, Loop, Course, closes, round, on_events, on_line, run_event_loop,
}
use ipk.Stream
use ipk.Stream.Retransmission.{run_event_loop_step}
use ipk.Tcp.Validator.{crlf}
use ipk.Tcp.Handler.{Tcp, new_tcp, bye, on_message, process_user_input}
use ipk.Tcp.Received.{process_received}
use ipk.Stream.Rounds.{round-line}
use ipk.Tcp.Client.{beside, Client, Incoming, bytes, new_client, tcp_handler}
use ipk.Tcp.Cases.{reacted}
use ipk.Tcp.Delivery.{
  NoReturn-Lacks, Printable-NoReturn, process_server_message-line, message_validate-message_line,
}
use ipk.Tcp.RoundTrip.{message_line}
use ipk.Tcp.Login.{auth_request, ok_line, asked, granted, login_opens, process_user_input-Plain}
use ipk.Tcp.Outcome.{sent_then}
use ipk.Tcp.Leaving.{interrupted_client_leaves}
use ipk.Udp.Client.{Sends}

-- What `poll` reports: a line of the user, bytes of the server, and a signal that ends the call.
abbrev pub says : Bytes → List ℕ × Events Incoming
says text = ([], ready none (some (some text)))

abbrev pub hears : Bytes → List ℕ × Events Incoming
hears b = ([], ready (some (record { failures = 0; last = bytes b })) none)

abbrev pub interrupts : List ℕ × Events Incoming
interrupts = (sigint ∷ [], failed)

ok_line-Lacks : (text : Bytes) → validate_content text ≡ true → Lacks (ok_line text)
unfolding lit
ok_line-Lacks text h = NoReturn-Lacks _ (
    All-append _ (lit "REPLY OK IS ") text (omega arith)
      (Printable-NoReturn text ((validate_content_iff text).0 h).1))

-- The object after each round.
abbrev waiting : Bytes → Bytes → Bytes → Tcp
waiting id secret name = asked id secret name (fsm auth (some start) (any ∷ [])) new_tcp

abbrev welcomed : Bytes → Bytes → Bytes → Bytes → Tcp
welcomed id secret name welcome =
    granted welcome (fsm opened (some auth) (any ∷ [])) (waiting id secret name)

abbrev spoken : Bytes → Tcp → Tcp
spoken text s = record s {
  fsm = fsm opened (some opened) (any ∷ []);
  log = sent 0 (message_line s.display_name text ++ crlf) ∷ s.log;
}

-- A line that the handler takes.
line_round :
    (net : Network) (text : Bytes) (l : Loop Client) (state : ClientState) (t : Tcp)
    → l.state ≡ ready_for_input
    → text ≢ []
    → process_user_input net text l.handler.1 ≡ returns state t
    → round (tcp_handler net) (record { interrupted = false; events = (says text).1 }) l
      ≡ returns tt (record l { state = state; handler = (l.handler.0, t) })
line_round net text l state t r n h =
    round-line (tcp_handler net) text l state (l.handler.0, t) r n (ap (beside l.handler.0) h)

-- A line of the server that leads to READY_FOR_INPUT.
server_round :
    (net : Network) (m : Bytes) (l : Loop Client) (s t : Tcp)
    → l.handler ≡ ([], s)
    → Lacks m
    → process_received net m s ≡ returns ready_for_input t
    → round (tcp_handler net) (record { interrupted = false; events = (hears (m ++ crlf)).1 }) l
      ≡ returns tt
          (record l { state = ready_for_input; retry_count = l.retrans; handler = ([], t) })
unfolding round
server_round net m l s t e k h = ground (arith, process_server_message-line net m [] s t k h)

message_sent :
    (net : Network) (text : Bytes) (s : Tcp)
    → Plain text
    → validate_content text ≡ true
    → s.fsm ≡ fsm opened (some auth) (any ∷ [])
    → Sends net
    → process_user_input net text s ≡ returns ready_for_input (spoken text s)
unfolding on_message validate_action
message_sent net text s p v f h =
    process_user_input-Plain net text s p
    ∙ reacted message_user any (fsm opened (some opened) (any ∷ [])) s _ (rw f refl)
    ∙ rw (message_validate-message_line s.display_name text v) (
        sent_then net (message_line s.display_name text ++ crlf)
          (record s { fsm = fsm opened (some opened) (any ∷ []) }) _ (h _ _))

pub content-ne-nil : (text : Bytes) → validate_content text ≡ true → text ≢ []
unfolding validate_content
content-ne-nil [] h e = cc h
content-ne-nil (c ∷ text) h e = cc e

pub auth_line-ne-nil : (argument : Bytes) → auth_line argument ≢ []
unfolding lit
auth_line-ne-nil argument e = cc

-- The object at the end: AUTH, the message and BYE were sent, and the welcome was printed.
abbrev pub conversed : Bytes → Bytes → Bytes → Bytes → Bytes → Tcp
conversed id secret name welcome text = record {
  display_name = name;
  fsm = fsm opened (some opened) (any ∷ []);
  waiting_for_reply = false;
  log =
      sent 0 bye
      ∷ sent 0 (message_line name text ++ crlf)
      ∷ ClientOutput.reply_success welcome
      ∷ sent 0 (auth_request id secret name)
      ∷ [];
}

loop_conversed :
    {id secret name : Bytes} (net : Network) (n : ℕ) (welcome text : Bytes)
    (more : List (List ℕ × Events Incoming))
    → Credentials id secret name
    → validate_content welcome ≡ true
    → Plain text
    → validate_content text ≡ true
    → Sends net
    → run_event_loop
        (tcp_handler net)
        (polls_with false (
          says (auth_line (three_words id secret name))
          ∷ hears (ok_line welcome ++ crlf)
          ∷ says text
          ∷ interrupts
          ∷ more))
        (Stream.start n new_client)
      ≡ closes (record (Stream.start n new_client) {
        state = over;
        first_time_interrupted = false;
        handler = ([], conversed id secret name welcome text);
      })
unfolding polls_with Stream.start handle_signals new_client new_tcp initial
loop_conversed {id} {secret} {name} net n welcome text more c w p v h =
    let (asks, replied) = login_opens net welcome new_tcp c w refl refl (h _ _) in
    let first : Loop Client = Stream.start n new_client in
    let second : Loop Client = record first {
      state = waiting_for_reply;
      handler = ([], waiting id secret name);
    } in
    let third : Loop Client = record first { handler = ([], welcomed id secret name welcome) } in
    let fourth : Loop Client = record first {
      handler = ([], spoken text (welcomed id secret name welcome));
    } in
    run_event_loop_step (tcp_handler net) _ _ first second refl
      (line_round net _ first waiting_for_reply _ refl (auth_line-ne-nil _) asks)
    ∙ run_event_loop_step (tcp_handler net) _ _ second third refl
        (server_round net (ok_line welcome) second _ _ refl (ok_line-Lacks welcome w) replied)
    ∙ run_event_loop_step (tcp_handler net) _ _ third fourth refl (
        line_round net text third ready_for_input _ refl (content-ne-nil text v)
          (message_sent net text (welcomed id secret name welcome) p v refl h))
    ∙ interrupted_client_leaves net _ _ fourth refl refl refl (h _ _)

-- The whole program, where the command line leads to the event loop with the TCP handler, on a
-- network that sends everything. The user types /auth with well-formed credentials, the server's
-- positive reply, with valid content, comes in one piece, the user types a message that is valid
-- and no command, and then interrupts the program. The program ends, with nothing in its buffer: it
-- has sent AUTH, has printed the reply, has sent the message under the user's name, and BYE, in
-- this order, and has done nothing else.
pub conversation_ends :
    {id secret name : Bytes} (w : World) (found : List Found) (c : Config) (fd : ℕ)
    (welcome text : Bytes) (more : List (List ℕ × Events Incoming))
    → main w.lookup found ≡ runs c fd over_tcp
    → Credentials id secret name
    → validate_content welcome ≡ true
    → Plain text
    → validate_content text ≡ true
    → Sends w.net
    → w.tcp_events
      ≡ says (auth_line (three_words id secret name))
        ∷ hears (ok_line welcome ++ crlf)
        ∷ says text
        ∷ interrupts
        ∷ more
    → run_main w found ≡ ended (tcp ([], conversed id secret name welcome text))
unfolding run_main run_handler Stream.start
conversation_ends w found c fd welcome text more m valid v p u h events =
    rw (m, events)
      (ap (λ course. of_handler tcp (after_loop course))
        (loop_conversed w.net _ welcome text more valid v p u h))
