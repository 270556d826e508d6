-- ===== src/Tests/TcpSessions.antt =====
-- Whole sessions of the TCP client.
use ipk.Common.{false, true, [], ◌∷◌, ◌≡◌, some, refl, Bytes, lit}
use ipk.Grammar.{split_message}
use ipk.Grammar.Split.{three_words}
use ipk.Commands.{auth_line}
use ipk.Fsm.{opened, Fsm, any, start, auth, initial, reply_server, nreply_server, error_server}
use ipk.Fsm.Invariant.{fsm}
use ipk.Protocol.{over, ready_for_input, waiting_for_reply, Network, returns}
use ipk.Stream.{Poll, Loop, failed, closes, run_event_loop}
use ipk.Stream
use ipk.Tcp.Validator.{authorize_validate}
use ipk.Tcp.Handler.{Tcp, new_tcp, process_user_input}
use ipk.Tcp.Received.{process_received}
use ipk.Tcp.Client.{Client, Incoming, new_client, tcp_handler}
use ipk.Tcp.Login.{ok_line, asked, granted}
use ipk.Tcp.Mistyped.{warned, refusal, mistyped_auth_locks_out}
use ipk.Tcp.Reported.{error_comes, reported, error_ends_client}
use ipk.Tests.Fields.{ann-valid, ann-Spaceless, ann, text, text-valid, text-Plain, credentials}

abbrev net : Network
net _ _ = true

abbrev words : Bytes
words = three_words (lit "ab") (lit "s") ann

-- Two words only.
abbrev wrong : Bytes
wrong = lit "ab s"

wrong-refused : (authorize_validate [] wrong).0.1 ≡ false
unfolding authorize_validate split_message lit
wrong-refused = refl

abbrev mistyped_fsm : Fsm
mistyped_fsm = fsm auth (some start) (any ∷ [])

abbrev first : Tcp
first = warned (authorize_validate [] wrong).0.0 mistyped_fsm new_tcp

abbrev second : Tcp
second =
    asked (lit "ab") (lit "s") ann
      (fsm auth (some auth) (reply_server ∷ nreply_server ∷ error_server ∷ [])) first

abbrev third : Tcp
third = granted text (fsm auth (some auth) (any ∷ [])) second

mistyped_auth_locks_out_example :
    (process_user_input net (auth_line wrong) new_tcp ≡ returns ready_for_input first)
    × (process_user_input net (auth_line words) first ≡ returns waiting_for_reply second)
    × (process_received net (ok_line text) second ≡ returns ready_for_input third)
    × (process_user_input net text third
        ≡ returns ready_for_input (warned refusal (fsm auth (some auth) (any ∷ [])) third))
unfolding new_tcp initial
mistyped_auth_locks_out_example =
    mistyped_auth_locks_out net wrong text text new_tcp credentials wrong-refused text-valid
      text-Plain refl refl refl

-- The poll that a signal ends early.
abbrev interrupting : Poll Incoming
interrupting = record { interrupted = true; events = failed }

abbrev idle : Loop Client
idle = Stream.start 3 new_client

abbrev open_client : Tcp
open_client = record (new_tcp) { fsm = fsm opened (some auth) (any ∷ []) }

abbrev chatting : Loop Client
chatting = record idle { handler = ([], open_client) }

error_ends_client_example :
    run_event_loop (tcp_handler net) (error_comes ann text ∷ []) chatting
    ≡ closes (record chatting {
      state = over;
      retry_count = chatting.retrans;
      handler = ([], reported ann text open_client);
    })
unfolding Stream.start
error_ends_client_example =
    error_ends_client net ann text chatting open_client [] refl refl ann-valid ann-Spaceless
      text-valid refl refl refl
