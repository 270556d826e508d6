-- ===== src/Main/Program.antt =====
-- main.cpp: the whole of `main`, with the event loop of the handler that was chosen.
use ipk.Common.{ℕ, false, List, Option, Bytes}
use ipk.Protocol.{Network, undefined}
use ipk.Config.{Config, Found}
use ipk.Connect.{get_server_address, endpoint}
use ipk.Interrupt.{polls_with}
use ipk.Main.{Handler, null, over_tcp, over_udp, Started, exits, runs, Lookup, main}
use ipk.Stream.{
  ProtocolHandler, Events, Course, polls, closes, fails, crashes, start, run_event_loop,
}
use ipk.Tcp.Client.{Client, Incoming, new_client, tcp_handler}
use ipk.Udp.Handler.{Udp, new_udp}
use ipk.Udp.Received.{RecvFrom}
use ipk.Udp.Client.{udp_handler}

-- What the operating system and its libraries give the program: whether a send succeeds, what
-- `getaddrinfo` and `inet_pton` answer, and what `poll` reports with the signals before each report, in the
-- case of either protocol.
pub record World : Type 0 where
  pub net : Network
  pub lookup : Lookup
  pub inet_pton : Bytes → Option ℕ
  pub tcp_events : List (List ℕ × Events Incoming)
  pub udp_events : List (List ℕ × Events RecvFrom)

-- The null pointer: every call is undefined. `resend_last_message` is never called, since the loop
-- awaits no confirmation before the first call.
abbrev pub null_handler : ProtocolHandler (Unit {0}) RecvFrom
null_handler = record {
  process_server_message = λ i h. undefined;
  process_user_input = λ m h. undefined;
  resend_last_message = λ h. h;
}

-- Where the program stands: it has exited with a status, met undefined behaviour, or waits in `poll`
-- with the handler in that state. With it, the last state of a handler that has ended.
pub data Program (H : Type 0) : Type 0 where
  exited : ℕ → Program H
  ended : H → Program H
  waits : H → Program H
  crashed : Program H

abbrev pub after_loop : {H : Type 0} → Course H → Program H
after_loop (polls l) = waits l.handler
after_loop (closes l) = ended l.handler
after_loop fails = exited 1
after_loop crashes = crashed

-- The two kinds of handlers, and none.
pub data Object : Type 0 where
  tcp : Client → Object
  udp : Udp → Object
  no_object : Object

abbrev pub of_handler : {H : Type 0} → (H → Object) → Program H → Program Object
of_handler f (exited n) = exited n
of_handler f (ended h) = ended (f h)
of_handler f (waits h) = waits (f h)
of_handler f crashed = crashed

-- StreamHandler's constructor and `run_event_loop`. `main` returns 0 after the loop: `ended`.
unfoldable pub run_handler : World → Config → Handler → Program Object
run_handler w c null =
    of_handler (λ _. no_object)
      (after_loop (
        run_event_loop null_handler (polls_with false w.udp_events)
          (start c.max_udp_retransmissions tt)))
run_handler w c over_tcp = of_handler tcp (
    after_loop (
      run_event_loop (tcp_handler w.net) (polls_with false w.tcp_events)
        (start c.max_udp_retransmissions new_client)))
run_handler w c over_udp =
    let address = endpoint (get_server_address w.inet_pton c.server_ip c.server_port) in
    of_handler udp (
      after_loop (
        run_event_loop (udp_handler w.net) (polls_with false w.udp_events)
          (start c.max_udp_retransmissions (new_udp address))))

abbrev pub run_started : World → Started → Program Object
run_started w (exits status) = exited status
run_started w Started.undefined = crashed
run_started w (runs c fd h) = run_handler w c h

unfoldable pub run_main : World → List Found → Program Object
run_main w found = run_started w (main w.lookup found)
