-- ===== src/Tests/Chats.antt =====
-- Runs of the whole program over UDP, and what holds of every run.
use ipk.Common.{◌*◌, ◌+◌, ℕ, List, [], ◌∷◌, ◌≡◌, ◌≢◌, refl, arith, ◌∙◌, lit, bytes_eq, All}
use ipk.Text.{find, before, to_upper}
use ipk.Main.Chat.{says, hears, interrupts, chat_ends}
use ipk.Main.ChatCalls.{conversed}
use ipk.Main.Defined.{SafeLine, SafeDatagram, run_main-defined}
use ipk.Main.Program.{World, crashed, ended, udp, run_main}
use ipk.Main.Authorized.{Authorized}
use ipk.Main.Sends.{SendsProper, run_main-SendsProper}
use ipk.Main.Sizes.{SendsShort, run_main-SendsShort}
use ipk.Main.Unanswered.{typed}
use ipk.Stream.{Events}
use ipk.Stream.Methods.{Reported}
use ipk.Udp.Login.{ok_datagram}
use ipk.Udp.Received.{RecvFrom}
use ipk.Udp.Session.{confirmation_of}
use ipk.Udp.Validator.{header, form_bye_message}
use ipk.Udp.Fields.Same.{content_same}
use ipk.Tests.Fields.{ann, text, text-valid, text-Plain, credentials}
use ipk.Tests.Programs.{world, config, hi-valid, tcp_world, tcp_options}
use ipk.Tests.Startup.{found_address, udp_options, main-runs}

abbrev chat_events : List (List ℕ × Events RecvFrom)
chat_events =
    typed (lit "ab") (lit "s") ann
    ∷ hears 9 (header 0 0 [])
    ∷ hears 9 (ok_datagram 5 0 (lit "hi"))
    ∷ says text
    ∷ hears 9 (header 0 1 [])
    ∷ interrupts
    ∷ hears 9 (confirmation_of (form_bye_message 2))
    ∷ []

abbrev chat_world : World
chat_world = world found_address chat_events

chat_ends_example :
    run_main chat_world udp_options
    ≡ ended (
        udp (
          conversed
            (0x7f000001 * 65536 + config.server_port)
            9
            5
            (lit "ab")
            (lit "s")
            ann
            (lit "hi")
            text))
chat_ends_example =
    chat_ends chat_world udp_options config 3 0x7f000001 9 5 (lit "hi") text [] main-runs refl
      credentials (content_same (lit "hi") ∙ hi-valid) text-Plain (content_same text ∙ text-valid)
      (omega arith) (λ _ _. refl) refl

run_main-SendsProper_example : SendsProper (run_main tcp_world tcp_options)
run_main-SendsProper_example = run_main-SendsProper tcp_world tcp_options

run_main-SendsShort_example : SendsShort (run_main chat_world udp_options)
run_main-SendsShort_example = run_main-SendsShort chat_world udp_options

chat-proper : All (λ report. Reported SafeLine SafeDatagram report.1) chat_events
unfolding lit bytes_eq find before to_upper form_bye_message
chat-proper = (
  (refl, omega arith),
  (
    (refl, omega arith),
    (
      (refl, omega arith),
      ((refl, omega arith), ((refl, omega arith), (tt, ((refl, omega arith), tt)))),
    ),
  ),
)

run_main-defined_example : run_main chat_world udp_options ≢ crashed
run_main-defined_example = run_main-defined chat_world udp_options config 3 main-runs chat-proper
