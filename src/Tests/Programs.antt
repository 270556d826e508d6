-- ===== src/Tests/Programs.antt =====
-- Runs of the whole program.
use ipk.Common.{◌++◌, ◌*◌, ◌+◌, ℕ, suc, true, List, [], ◌∷◌, none, some, ◌≡◌, refl, lit, bytes_eq}
use ipk.Config.{Config, Found, default_config, validate, parse, set_option}
use ipk.Connect.{connect_to_server, try_addresses}
use ipk.Main.{over_tcp, Lookup, null, main, runs, choose_handler}
use ipk.Main.Conversation.{says, hears, interrupts, conversed, conversation_ends}
use ipk.Commands.{auth_line}
use ipk.Grammar.Split.{three_words}
use ipk.Grammar.{validate_content, all_chars}
use ipk.Text.{is_print}
use ipk.Tcp.Validator.{crlf}
use ipk.Tcp.Login.{ok_line}
use ipk.Main.Program.{World, tcp, udp, ended, crashed, run_main}
use ipk.Main.Unanswered.{typed, quiet, asking, unanswered_login_ends}
use ipk.Main.Unhandled.{ends, speaking_crashes}
use ipk.Stream.{Events, ready}
use ipk.Udp.Received.{RecvFrom}
use ipk.Tests.Fields.{ann, text, text-valid, text-Plain, credentials}
use ipk.Tests.Startup.{found_address, udp_options, main-runs}

-- A server that can be reached by TCP.
abbrev reachable : Lookup
reachable name port = some (record { socket = some 3; connects = true } ∷ [])

abbrev pub world : Lookup → List (List ℕ × Events RecvFrom) → World
world found events = record {
  net = λ _ _. true;
  lookup = found;
  inet_pton = λ _. some 0x7f000001;
  tcp_events = [];
  udp_events = events;
}

abbrev pub config : Config
config = record (default_config) { protocol = lit "udp"; server_ip = lit "::1" }

unanswered_login_ends_example :
    run_main
      (world found_address
        (typed (lit "ab") (lit "s") ann ∷ quiet (suc config.max_udp_retransmissions) []))
      udp_options
    ≡ ended (
        udp (
          asking config.max_udp_retransmissions
            (0x7f000001 * 65536 + config.server_port)
            (lit "ab")
            (lit "s")
            ann))
unanswered_login_ends_example =
    unanswered_login_ends
      (world found_address
        (typed (lit "ab") (lit "s") ann ∷ quiet (suc config.max_udp_retransmissions) []))
      udp_options config 3 0x7f000001 [] main-runs refl credentials (λ _ _. refl) refl

-- `-t "" -s ::1`
abbrev no_protocol : List Found
no_protocol =
    record { option = b't'; optarg = [] } ∷ record { option = b's'; optarg = lit "::1" } ∷ []

main-unhandled :
    main reachable no_protocol
    ≡ runs (record (default_config) { protocol = []; server_ip = lit "::1" }) 3 null
unfolding main parse set_option validate bytes_eq choose_handler connect_to_server try_addresses
    default_config lit
main-unhandled = refl

speaking_crashes_example :
    run_main (world reachable (([], ready none (some none)) ∷ [])) no_protocol ≡ crashed
speaking_crashes_example =
    speaking_crashes (world reachable (([], ready none (some none)) ∷ [])) no_protocol _ 3 [] []
      main-unhandled ends refl

-- `-t tcp -s ::1`
abbrev pub tcp_options : List Found
tcp_options =
    record { option = b't'; optarg = lit "tcp" } ∷ record { option = b's'; optarg = lit "::1" } ∷ []

pub tcp-runs :
    main reachable tcp_options
    ≡ runs (record (default_config) { protocol = lit "tcp"; server_ip = lit "::1" }) 3 over_tcp
unfolding main parse set_option validate bytes_eq choose_handler connect_to_server try_addresses
    default_config lit
tcp-runs = refl

abbrev pub tcp_world : World
tcp_world = record (world reachable []) {
  tcp_events =
      says (auth_line (three_words (lit "ab") (lit "s") ann))
      ∷ hears (ok_line (lit "hi") ++ crlf)
      ∷ says text
      ∷ interrupts
      ∷ [];
}

pub hi-valid : validate_content (lit "hi") ≡ true
unfolding validate_content all_chars is_print lit
hi-valid = refl

conversation_ends_example :
    run_main tcp_world tcp_options
    ≡ ended (tcp ([], conversed (lit "ab") (lit "s") ann (lit "hi") text))
conversation_ends_example =
    conversation_ends tcp_world tcp_options
      (record (default_config) { protocol = lit "tcp"; server_ip = lit "::1" }) 3 (lit "hi") text []
      tcp-runs credentials hi-valid text-Plain text-valid (λ _ _. refl) refl
