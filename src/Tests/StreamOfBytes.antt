-- ===== src/Tests/StreamOfBytes.antt =====
-- The TCP handler on concrete bytes.
use ipk.Common.{arith, ◌↔◌, true, List, [], ◌∷◌, ◌++◌, some, ◌≡◌, refl, Bytes, lit, All, bytes_eq}
use ipk.Text.{find_crlf, to_upper, find, before, after, is_alnum, is_print}
use ipk.Text.Crlf.{Lacks, unframe}
use ipk.Grammar.{split_message, all_chars, validate_id, validate_secret, validate_dname}
use ipk.Fsm.{any, opened, auth, initial, validate_action}
use ipk.Fsm.Invariant.{fsm}
use ipk.Protocol.{ClientState, waiting_for_reply, ready_for_input, Network, Run, returns, undefined}
use ipk.Tcp.Validator.{message_validate, crlf, authorize_validate}
use ipk.Tcp.Handler.{Tcp, new_tcp, process_user_input, react, on_auth, set_waiting, send_message}
use ipk.Tcp.Received.{process_received}
use ipk.Tcp.Receive.{bytes, drain, process_server_message}
use ipk.Tcp.Framing.{drain_buffer, drain_buffer-total, drain_buffer-append}
use ipk.Tcp.RoundTrip.{message_line}
use ipk.Tcp.Delivery.{shown, shown_state, message_delivered}
use ipk.Tcp.Outcome.{Ends}
use ipk.Tcp.Ended.{other_messages_end}
use ipk.Tcp.Session.{
  ongoing, line, message, input, Reached, new, next, improper, input-undefined_iff,
}
use ipk.Tcp.SentStream.{keep, bytes_sent, texts_sent, sent_stream_frames}
use ipk.Tcp.Gaps.{waiting_client_stalls}
use ipk.Tests.Fields.{ann, text, ann-valid, ann-Spaceless, text-valid}

abbrev net : Network
net _ _ = true

abbrev open_client : Tcp
open_client = record (new_tcp) { fsm = fsm opened (some auth) (any ∷ []) }

abbrev joining_client : Tcp
joining_client = record open_client { waiting_for_reply = true }

message_delivered_example :
    process_server_message net (bytes (message_validate ann text).0 ∷ []) ([], open_client)
    ≡ some (returns (shown_state open_client) ([], shown ann text open_client), [])
message_delivered_example =
    message_delivered net ann text open_client [] ann-valid ann-Spaceless text-valid refl refl

-- A handler that collects the messages.
abbrev collect : Bytes → List Bytes → Run (List Bytes) ClientState
collect m ms = returns ready_for_input (m ∷ ms)

abbrev head : Bytes
head = lit "a" ++ (crlf ++ lit "b")

abbrev rest : Bytes
rest = lit "c" ++ crlf

head-runs : drain_buffer collect head [] ≡ some (returns ready_for_input (lit "b", lit "a" ∷ []))
unfolding drain find_crlf lit
head-runs = refl

drain_buffer-append_example :
    drain_buffer collect (head ++ rest) [] ≡ drain_buffer collect (lit "b" ++ rest) (lit "a" ∷ [])
drain_buffer-append_example =
    drain_buffer-append collect head rest (lit "b") [] (lit "a" ∷ []) head-runs

a_b-Lacks : All Lacks (lit "a" ∷ lit "b" ∷ [])
unfolding find_crlf lit
a_b-Lacks = (refl, (refl, tt))

c-Lacks : Lacks (lit "c")
unfolding find_crlf lit
c-Lacks = refl

drain_buffer-total_example :
    (r : Run (Bytes × List Bytes) ClientState) × (drain_buffer collect head [] ≡ some r)
drain_buffer-total_example = drain_buffer-total collect head []

-- After `/auth ab s Ann`.
abbrev auth_line : Bytes
auth_line = lit "/auth ab s Ann"

abbrev asked : Tcp
asked = elim (input net (line auth_line) new_tcp) [ returns _ s ↦ s | _ ↦ new_tcp ]

asked-Reached : Reached net asked
unfolding input process_user_input bytes_eq lit find before after to_upper react validate_action
    initial on_auth set_waiting split_message authorize_validate validate_id validate_secret
    validate_dname all_chars is_alnum is_print send_message new_tcp
asked-Reached = next (line auth_line) new refl (λ e. cc)

input-undefined_iff_example :
    (input net (message (lit "REPLY OK IS")) asked ≡ undefined)
    ↔ (improper (message (lit "REPLY OK IS")) asked ≡ true)
unfolding lit
input-undefined_iff_example =
    input-undefined_iff net asked (message (lit "REPLY OK IS")) asked-Reached (omega arith)

waiting_client_stalls_example :
    process_server_message net
      (bytes (unframe (message_line ann text ∷ lit "BYE" ∷ []) []) ∷ [])
      ([], joining_client)
    ≡ some
        (returns waiting_for_reply (unframe (lit "BYE" ∷ []) [], shown ann text joining_client), [])
unfolding lit find_crlf
waiting_client_stalls_example =
    waiting_client_stalls net ann text (lit "BYE" ∷ []) [] []
      (unframe (message_line ann text ∷ lit "BYE" ∷ []) []) [] joining_client ann-valid
      ann-Spaceless text-valid refl refl refl (refl, tt) refl refl

sent_stream_frames_example :
    drain_buffer keep (bytes_sent asked.log) []
    ≡ some (returns ready_for_input ([], texts_sent asked.log))
sent_stream_frames_example = sent_stream_frames net (ongoing waiting_for_reply asked-Reached)

other_messages_end_example : Ends (process_received net (lit "bye") asked)
unfolding split_message lit to_upper bytes_eq
other_messages_end_example = other_messages_end net asked (lit "bye") asked-Reached refl refl
