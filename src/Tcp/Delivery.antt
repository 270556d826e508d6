-- ===== src/Tcp/Delivery.antt =====
-- A message on its way from one TCP client to the screen of another.
use ipk.Common.{
  Bool, true, false, List, [], ◌∷◌, ◌++◌, some, ◌≡◌, ◌≢◌, refl, ap, ◌∙◌, arith, append_assoc, Bytes,
  All, All-append, All-imp, lit, if◌then◌else◌,
}
use ipk.Text.{find_crlf}
use ipk.Text.Crlf.{Lacks}
use ipk.Grammar.{validate_dname, validate_content}
use ipk.Grammar.Split.{Spaceless}
use ipk.Grammar.Accepts.{Printable, validate_dname_iff, validate_content_iff}
use ipk.Fsm.{opened, any, is_restricted, validate_action}
use ipk.Protocol.{ClientState, ready_for_input, Network, Run, returns}
use ipk.ClientOutput.{message_from_server}
use ipk.Tcp.Validator.{crlf, message_validate}
use ipk.Tcp.RoundTrip.{
  message_line, message_words, split_message-message_line, validate_message_server-message_line,
}
use ipk.Tcp.Handler.{Tcp, react, print}
use ipk.Tcp.Received.{process_received, on_server_message}
use ipk.Tcp.Receive.{Recv, bytes, process_server_message}
use ipk.Tcp.Framing.{drain_buffer, drain_buffer-unframe, proceed_all}

-- No carriage return in the text, so no "\r\n" either.
abbrev pub NoReturn : Bytes → Type 0
NoReturn = All (λ c. c ≢ 13)

pub NoReturn-Lacks : (s : Bytes) → NoReturn s → Lacks s
unfolding find_crlf
NoReturn-Lacks [] h = refl
NoReturn-Lacks (c ∷ []) h = refl
NoReturn-Lacks (c ∷ d ∷ s) (h, hs) = ground (arith, NoReturn-Lacks (d ∷ s) hs)

pub Printable-NoReturn : (s : Bytes) → All Printable s → NoReturn s
Printable-NoReturn s h = All-imp Printable (λ c. c ≢ 13) s (λ c p. omega arith) h

pub message_line-Lacks :
    (name content : Bytes)
    → validate_dname name ≡ true
    → validate_content content ≡ true
    → Lacks (message_line name content)
unfolding lit
message_line-Lacks name content n c = NoReturn-Lacks _ (
    All-append _ (lit "MSG FROM ") _ (omega arith) (
      All-append _ name _ (Printable-NoReturn name ((validate_dname_iff name).0 n).1) (
        All-append _ (lit " IS ") content (omega arith)
          (Printable-NoReturn content ((validate_content_iff content).0 c).1))))

pub message_validate-message_line :
    (name content : Bytes)
    → validate_content content ≡ true
    → message_validate name content ≡ (message_line name content ++ crlf, true)
unfolding message_validate
message_validate-message_line name content c = simp (c, append_assoc)

-- What the receiving client is left with: the line printed, and nothing expected in OPEN.
abbrev pub shown : Bytes → Bytes → Tcp → Tcp
shown name content s = record s {
  fsm = record { current_state = opened; previous_state = some opened; expected_action = any ∷ [] };
  log = message_from_server name content ∷ s.log;
}

abbrev pub shown_state : Tcp → ClientState
shown_state s = if s.waiting_for_reply then ClientState.waiting_for_reply else ready_for_input

pub process_received-message_line :
    (net : Network) (name content : Bytes) (s : Tcp)
    → validate_dname name ≡ true
    → Spaceless name
    → validate_content content ≡ true
    → s.fsm.current_state ≡ opened
    → is_restricted s.fsm.expected_action ≡ false
    → process_received net (message_line name content) s
      ≡ returns (shown_state s) (shown name content s)
unfolding process_received react validate_action on_server_message print
process_received-message_line net name content s n h c o e =
    rw (split_message-message_line name content h) (
      ground (
        arith,
        message_words,
        validate_message_server-message_line s.display_name name content n h c,
      ))

pub process_server_message-bytes :
    (net : Network) (received : Bytes) (calls : List Recv) (buffer : Bytes) (s : Tcp)
    {r : Run (Bytes × Tcp) ClientState}
    → drain_buffer (process_received net) (buffer ++ received) s ≡ some r
    → process_server_message net (bytes received ∷ calls) (buffer, s) ≡ some (r, calls)
unfolding process_server_message
process_server_message-bytes net received calls buffer s h = rw (h, process_server_message)

-- One line that leads to READY_FOR_INPUT.
pub process_server_message-line :
    (net : Network) (m : Bytes) (calls : List Recv) (s t : Tcp)
    → Lacks m
    → process_received net m s ≡ returns ready_for_input t
    → process_server_message net (bytes (m ++ crlf) ∷ calls) ([], s)
      ≡ some (returns ready_for_input ([], t), calls)
process_server_message-line net m calls s t l h = process_server_message-bytes net _ calls [] s (
    drain_buffer-unframe (process_received net) _ (m ∷ []) [] s refl (l, tt)
      (unfold find_crlf in refl)
    ∙ ap some (ap (proceed_all (process_received net) (λ u. returns ready_for_input ([], u)) []) h))

-- Neither of the two states that a shown message leads to leaves anything in the buffer.
shown_proceeds :
    (net : Network) (t : Tcp) (b : Bool)
    → proceed_all
        (process_received net)
        (λ u. returns ready_for_input ([], u))
        []
        (returns (if b then ClientState.waiting_for_reply else ready_for_input) t)
      ≡ returns (if b then ClientState.waiting_for_reply else ready_for_input) ([], t)
shown_proceeds net t true = refl
shown_proceeds net t false = refl

-- The bytes that a client sends for a user's message are read by another client, in OPEN with
-- nothing expected, as that name and that content: it prints them, goes on as it was, and keeps
-- nothing in its buffer. The name is valid and has no space, and the content is valid.
pub message_delivered :
    (net : Network) (name content : Bytes) (s : Tcp) (calls : List Recv)
    → validate_dname name ≡ true
    → Spaceless name
    → validate_content content ≡ true
    → s.fsm.current_state ≡ opened
    → is_restricted s.fsm.expected_action ≡ false
    → process_server_message net (bytes (message_validate name content).0 ∷ calls) ([], s)
      ≡ some (returns (shown_state s) ([], shown name content s), calls)
message_delivered net name content s calls n h c o e =
    rw (message_validate-message_line name content c) (
      process_server_message-bytes net _ calls [] s (
        drain_buffer-unframe (process_received net) _ (message_line name content ∷ []) [] s refl
          (message_line-Lacks name content n c, tt) (unfold find_crlf in refl)
        ∙ ap some (
            ap (proceed_all (process_received net) (λ u. returns ready_for_input ([], u)) [])
              (process_received-message_line net name content s n h c o e)
            ∙ shown_proceeds net _ s.waiting_for_reply)))
