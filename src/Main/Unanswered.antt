-- ===== src/Main/Unanswered.antt =====
-- A run of the whole program: a UDP client whose authorisation is never answered.
use ipk.Common.{
  ◌*◌, ◌+◌, ◌<◌, ℕ, zero, suc, true, false, List, [], ◌∷◌, none, some, ◌≡◌, refl, ap, ◌∙◌, arith,
  Bytes, lit,
}
use ipk.Grammar.Split.{three_words}
use ipk.Grammar.Credentials.{Credentials}
use ipk.Commands.{auth_line}
use ipk.Fsm.{any, start, auth, initial}
use ipk.Fsm.Invariant.{fsm}
use ipk.Protocol.{sent, over, waiting_for_confirmation, Network, returns}
use ipk.Config.{Config, Found}
use ipk.Connect.Server.{endpoint-get_server_address}
use ipk.Interrupt.{polls_with}
use ipk.Main.{Handler, Lookup, over_udp, runs, main, main-Sound}
use ipk.Main.Program.{World, ended, udp, after_loop, of_handler, run_handler, run_main}
use ipk.Stream.{Events, timeout, ready, Poll, Loop, Course, closes, round, on_line, run_event_loop}
use ipk.Stream
use ipk.Stream.Retransmission.{silence, silences, run_event_loop_step}
use ipk.Udp.Handler.{Udp, new_udp, send_awaited, send_message}
use ipk.Udp.Received.{RecvFrom}
use ipk.Udp.Client.{udp_handler, copies, copies-cons, Sends, unanswered_client_ends}
use ipk.Udp.Login.{auth_datagram, asked, request_sent}

-- So many timeouts without a signal, and then other reports of `poll`.
abbrev pub quiet : {I : Type 0} → ℕ → List (List ℕ × Events I) → List (List ℕ × Events I)
quiet zero more = more
quiet (suc n) more = ([], timeout) ∷ quiet n more

polls_with-quiet :
    {I : Type 0} (n : ℕ) (more : List (List ℕ × Events I))
    → polls_with false (quiet n more) ≡ silences n (polls_with false more)
unfolding polls_with
polls_with-quiet zero more = refl
polls_with-quiet (suc n) more = ap (◌∷◌ silence) (polls_with-quiet n more)

-- The user's line of an authorisation.
abbrev pub typed : Bytes → Bytes → Bytes → List ℕ × Events RecvFrom
typed id secret name = ([], ready none (some (some (auth_line (three_words id secret name)))))

-- The object after the first line: the request has been sent once, and this often more.
abbrev pub asking : ℕ → ℕ → Bytes → Bytes → Bytes → Udp
asking more address id secret name =
    let request = auth_datagram 0 id secret name in
    record (new_udp address) {
      display_name = name;
      fsm = fsm auth (some start) (any ∷ []);
      renamer3000 = 1;
      waiting_for_reply = true;
      waiting_for_confirmation = true;
      last_message = request;
      log = copies (suc more) (sent address request) [];
    }

pub asked-asking :
    (net : Network) (address : ℕ) (id secret name : Bytes)
    → Sends net
    → asked net id secret name (fsm auth (some start) (any ∷ [])) (new_udp address)
      ≡ asking 0 address id secret name
unfolding send_awaited send_message new_udp
asked-asking net address id secret name h = rw (h [] (auth_datagram 0 id secret name))

abbrev pub after_line : ℕ → Udp → Loop Udp
after_line n u = record (Stream.start n u) { state = waiting_for_confirmation; retry_count = n }

pub first_round :
    {id secret name : Bytes} (net : Network) (n address : ℕ)
    → Credentials id secret name
    → Sends net
    → round
        (udp_handler net)
        (record { interrupted = false; events = (typed id secret name).1 })
        (Stream.start n (new_udp address))
      ≡ returns tt (after_line n (asking 0 address id secret name))
unfolding round Stream.start lit new_udp initial
first_round {id} {secret} {name} net n address c h =
    let e = asked-asking net address id secret name h in
    ground (arith, request_sent net (new_udp address) c refl refl refl)

loop_unanswered :
    {id secret name : Bytes} (net : Network) (n address : ℕ)
    (more : List (List ℕ × Events RecvFrom))
    → Credentials id secret name
    → Sends net
    → run_event_loop
        (udp_handler net)
        (polls_with false (typed id secret name ∷ quiet (suc n) more))
        (Stream.start n (new_udp address))
      ≡ closes (record (after_line n (asking n address id secret name)) {
        state = over;
        retry_count = 0;
      })
unfolding polls_with Stream.start new_udp
loop_unanswered {id} {secret} {name} net n address more c h =
    let l = after_line n (asking 0 address id secret name) in
    run_event_loop_step (udp_handler net) _ _ _ l refl (first_round net n address c h)
    ∙ ap (λ polled. run_event_loop (udp_handler net) polled l) (polls_with-quiet (suc n) more)
    ∙ unanswered_client_ends net l (polls_with false more) h refl
    ∙ ap
        (λ log. closes (record l {
          state = over;
          retry_count = 0;
          handler = record (asking 0 address id secret name) { log = log };
        }))
        (copies-cons n (sent address (auth_datagram 0 id secret name)) [])

-- The configuration's port fits, by the parsing of the command line.
pub port_fits :
    (lookup : Lookup) (found : List Found) (c : Config) (fd : ℕ) (h : Handler)
    → main lookup found ≡ runs c fd h
    → c.server_port < 65536
port_fits lookup found c fd h m = (rw m at (main-Sound lookup found)).in_range.port_fits

-- The whole program, where the command line leads to the event loop with the UDP handler, the
-- server is given by an address that `inet_pton` can read, and the network sends everything. The
-- user's first line is /auth with well-formed credentials, and then `poll` times out as often as
-- the configuration allows retransmissions, and once more, with no signal. The program then ends.
-- It has sent one AUTH datagram, with id 0, to that address and the configuration's port, as many
-- times more as the configuration says, and has done nothing else.
pub unanswered_login_ends :
    {id secret name : Bytes} (w : World) (found : List Found) (c : Config) (fd a : ℕ)
    (more : List (List ℕ × Events RecvFrom))
    → main w.lookup found ≡ runs c fd over_udp
    → w.inet_pton c.server_ip ≡ some a
    → Credentials id secret name
    → Sends w.net
    → w.udp_events ≡ typed id secret name ∷ quiet (suc c.max_udp_retransmissions) more
    → let server = a * 65536 + c.server_port in
      run_main w found ≡ ended (udp (asking c.max_udp_retransmissions server id secret name))
unfolding run_main run_handler Stream.start
unanswered_login_ends w found c fd a more m pton valid h events =
    let server =
      endpoint-get_server_address w.inet_pton c.server_ip c.server_port a
        (port_fits w.lookup found c fd over_udp m) pton in
    rw (m, events, server)
      (ap (λ course. of_handler udp (after_loop course)) (loop_unanswered w.net _ _ more valid h))
