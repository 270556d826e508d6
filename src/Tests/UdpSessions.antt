-- ===== src/Tests/UdpSessions.antt =====
-- Whole sessions of the UDP client.
use ipk.Common.{false, true, ◌↔◌, [], ◌∷◌, ◌≡◌, none, some, refl, arith, ◌∙◌, Bytes, lit, bytes_eq}
use ipk.Grammar.Split.{three_words}
use ipk.Commands.{auth_line}
use ipk.Fsm.{any, start, auth, opened, initial}
use ipk.Fsm.Invariant.{fsm}
use ipk.Protocol.{
  over, ready_for_input, waiting_for_confirmation, Network, returns, undefined, sent,
}
use ipk.Stream.{Poll, Loop, failed, ready, closes, run_event_loop, polls, poll_arguments}
use ipk.Stream
use ipk.Udp.Validator.{header}
use ipk.Udp.Handler.{Udp, new_udp, process_user_input, id_lookup, send_error_message}
use ipk.Udp.Received.{RecvFrom, datagram, process_server_message}
use ipk.Udp.Sending.{confirm_datagram}
use ipk.Udp.Session.{socket, input, new}
use ipk.Udp.Duplicates.{printed}
use ipk.Udp.Client.{udp_handler, copies}
use ipk.Udp.Unexpected.{late, late_confirmation_ends}
use ipk.Stream.Retransmission.{silences, run_event_loop_step}
use ipk.Udp.Definedness.{improper, session-undefined_iff}
use ipk.Udp.Exchange.{message_datagram, announced, assured, message_exchanged}
use ipk.Udp.Login.{asked, request_sent}
use ipk.Udp.Leaving.{left, interrupted_client_confirmed}
use ipk.Stream.Rounds.{round-line}
use ipk.Main.Conversation.{auth_line-ne-nil}
use ipk.Udp.Waiting.{awaited_is_timed}
use ipk.Udp.Postponed.{postponed, free_again, reported, postponed_error_replaces_line}
use ipk.Udp.Fields.Same.{content_same, dname_same}
use ipk.Tests.Fields.{ann, ann-valid, text, text-valid, text-Plain, credentials}

abbrev net : Network
net _ _ = true

abbrev fresh : Udp
fresh = new_udp 7

session-undefined_iff_example :
    let confirm = socket (datagram 7 (0 ∷ 1 ∷ [])) in
    (input net confirm fresh ≡ undefined) ↔ (improper confirm fresh ≡ true)
session-undefined_iff_example =
    session-undefined_iff net 7 fresh (socket (datagram 7 (0 ∷ 1 ∷ []))) new tt

abbrev open_client : Udp
open_client = record fresh { display_name = ann; fsm = fsm opened (some auth) (any ∷ []) }

message_exchanged_example :
    (process_user_input net text open_client
      ≡ returns waiting_for_confirmation (announced net text open_client))
    × (process_server_message net (datagram 8 (message_datagram ann 0 text)) open_client
        ≡ returns ready_for_input
            (printed net 0 (ann ∷ text ∷ []) (record open_client { server_address = 8 })))
    × (process_server_message net (datagram 9 (header 0 0 [])) (announced net text open_client)
        ≡ returns ready_for_input (assured net 9 text open_client))
unfolding new_udp id_lookup
message_exchanged_example =
    message_exchanged net 8 9 text open_client open_client text-Plain
      (content_same text ∙ text-valid) (dname_same ann ∙ ann-valid) (omega arith) refl refl refl
      refl refl refl refl refl refl

-- The poll that a signal ends early.
abbrev interrupting : Poll RecvFrom
interrupting = record { interrupted = true; events = failed }

abbrev idle : Loop Udp
idle = Stream.start 3 fresh

interrupted_client_confirmed_example :
    let confirmation = confirm_datagram idle.handler.renamer3000 in
    run_event_loop
      (udp_handler net)
      (interrupting
        ∷ record { interrupted = true; events = ready (some (datagram 9 confirmation)) none }
        ∷ [])
      idle
    ≡ closes (record idle {
      state = over;
      retry_count = idle.retrans;
      first_time_interrupted = false;
      handler = left net 9 idle.handler;
    })
unfolding Stream.start new_udp
interrupted_client_confirmed_example =
    interrupted_client_confirmed net interrupting 9 none true [] idle refl refl refl (omega arith)

-- Two copies of the last message are confirmed, and one confirmation is late.
late_confirmation_ends_example :
    run_event_loop (udp_handler net) (late 8 1 none ∷ silences 4 []) idle
    ≡ closes (record idle {
      state = over;
      retry_count = 0;
      handler = record (idle.handler) {
        server_address = 8;
        log = copies 3 (sent 8 idle.handler.last_message) idle.handler.log;
      };
    })
unfolding Stream.start new_udp
late_confirmation_ends_example =
    late_confirmation_ends net 8 1 none [] idle (λ _ _. refl) refl (omega arith) (omega arith)

-- After /auth and a failed send of it.
abbrev offline : Network
offline _ _ = false

abbrev typed : Poll RecvFrom
typed = record {
  interrupted = false;
  events = ready none (some (some (auth_line (three_words (lit "ab") (lit "s") ann))));
}

abbrev after_auth : Loop Udp
after_auth = record idle {
  state = waiting_for_confirmation;
  handler = asked offline (lit "ab") (lit "s") ann (fsm auth (some start) (any ∷ [])) fresh;
}

after_auth-polls : run_event_loop (udp_handler offline) (typed ∷ []) idle ≡ polls after_auth
unfolding Stream.start new_udp initial run_event_loop lit
after_auth-polls = run_event_loop_step (udp_handler offline) typed [] idle after_auth refl (
    round-line (udp_handler offline) (auth_line (three_words (lit "ab") (lit "s") ann)) idle
      waiting_for_confirmation after_auth.handler refl (auth_line-ne-nil _)
      (request_sent offline fresh credentials refl refl refl))

awaited_is_timed_example : poll_arguments 250 after_auth.state ≡ (1, some 250)
unfolding Stream.start new_udp
awaited_is_timed_example =
    awaited_is_timed offline 7 3 250 (typed ∷ []) after_auth after_auth-polls refl

-- A client that awaits the confirmation of its message 0.
abbrev sender : Udp
sender = record open_client { waiting_for_confirmation = true }

abbrev problem : Bytes
problem = lit "Unexpected format"

text-no_exit : bytes_eq text (lit "/exit") ≡ false
unfolding bytes_eq lit
text-no_exit = refl

postponed_error_replaces_line_example :
    let free = free_again net 9 problem sender in
    (send_error_message net problem sender ≡ postponed net problem sender)
    × (process_server_message net (datagram 9 (header 0 0 [])) (postponed net problem sender)
        ≡ returns ready_for_input free)
    × (process_user_input net text free
        ≡ returns waiting_for_confirmation (reported net problem free))
unfolding new_udp
postponed_error_replaces_line_example =
    postponed_error_replaces_line net problem text 9 sender refl (omega arith) refl refl refl
      text-no_exit
