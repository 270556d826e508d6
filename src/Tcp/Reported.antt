-- ===== src/Tcp/Reported.antt =====
-- An error that one TCP client reports and another one receives.
use ipk.Common.{
  true, false, List, [], ◌∷◌, ◌++◌, none, some, ◌≡◌, refl, ap, ◌∙◌, arith, append_assoc, Bytes, lit,
  bytes_eq, All-append,
}
use ipk.Text.{upper, find_crlf, to_upper}
use ipk.Text.Crlf.{Lacks}
use ipk.Grammar.{split_message, validate_dname, validate_content}
use ipk.Grammar.Accepts.{validate_content_iff, validate_dname_iff}
use ipk.Grammar.Split.{Spaceless, split_message-append}
use ipk.ClientOutput
use ipk.Fsm.Invariant.{fsm}
use ipk.Tcp.Cases.{reacted}
use ipk.Tcp.Outcome.{sent_then}
use ipk.Fsm.{any, error_server, opened, end, bye_user, is_restricted, validate_action}
use ipk.Protocol.{◌>>=◌, ready_for_input, over, sent, Network, returns}
use ipk.Stream.{Poll, Loop, ready, closes, is_over, run_event_loop}
use ipk.Stream.Retransmission.{run_event_loop_step, run_event_loop_over}
use ipk.Stream.Rounds.{round-received}
use ipk.Tcp.Validator.{crlf, form_error_message, validate_error_server}
use ipk.Tcp.Handler.{Tcp, bye, react, print}
use ipk.Tcp.Received.{on_error, process_received}
use ipk.Tcp.Receive.{bytes, process_server_message}
use ipk.Tcp.Client.{Client, Incoming, returned, tcp_handler}
use ipk.Tcp.Client
use ipk.Tcp.Content.{content_of-split_message}
use ipk.Tcp.Delivery.{NoReturn-Lacks, Printable-NoReturn, process_server_message-bytes}
use ipk.Tcp.Framing.{drain_buffer-unframe, proceed_all}
use ipk.Tcp.RoundTrip.{message_words, length-split_message}

-- The line without its "\r\n".
abbrev pub error_line : Bytes → Bytes → Bytes
error_line name content = lit "ERR FROM " ++ (name ++ (lit " IS " ++ content))

form_error_message-error_line :
    (name content : Bytes) → form_error_message name content ≡ error_line name content ++ crlf
unfolding form_error_message
form_error_message-error_line name content = simp append_assoc

error_line-Lacks :
    (name content : Bytes)
    → validate_dname name ≡ true
    → validate_content content ≡ true
    → Lacks (error_line name content)
unfolding lit
error_line-Lacks name content n c = NoReturn-Lacks _ (
    All-append _ (lit "ERR FROM ") _ (omega arith) (
      All-append _ name _ (Printable-NoReturn name ((validate_dname_iff name).0 n).1) (
        All-append _ (lit " IS ") content (omega arith)
          (Printable-NoReturn content ((validate_content_iff content).0 c).1))))

split_message-error_line :
    (name content : Bytes)
    → Spaceless name
    → split_message (error_line name content)
      ≡ lit "ERR" ∷ lit "FROM" ∷ name ∷ lit "IS" ∷ split_message content
unfolding lit
split_message-error_line name content h =
    split_message-append (lit "ERR") _ (omega arith)
    ∙ ap (◌∷◌ (lit "ERR")) (
        split_message-append (lit "FROM") _ (omega arith)
        ∙ ap (◌∷◌ (lit "FROM")) (
            split_message-append name _ h
            ∙ ap (◌∷◌ name) (split_message-append (lit "IS") content (omega arith))))

error_words :
    (bytes_eq (upper (lit "ERR")) (lit "ERR") ≡ true)
    × (bytes_eq (upper (lit "ERR")) (lit "MSG") ≡ false)
    × (bytes_eq (upper (lit "ERR")) (lit "REPLY") ≡ false)
unfolding lit to_upper bytes_eq
error_words = (refl, refl, refl)

validate_error_server-error_line :
    (name content : Bytes)
    → validate_dname name ≡ true
    → Spaceless name
    → validate_content content ≡ true
    → validate_error_server (error_line name content) ≡ some ((content, name), true)
unfolding validate_error_server
validate_error_server-error_line name content v h c = rw (split_message-error_line name content h) (
    ground (
      arith,
      length-split_message content,
      error_words,
      message_words,
      content_of-split_message content,
      split_message-error_line name content h,
    ))

-- The error is printed, and BYE is sent.
abbrev pub reported : Bytes → Bytes → Tcp → Tcp
reported name content s = record s {
  fsm = record {
    current_state = end;
    previous_state = some opened;
    expected_action = bye_user ∷ [];
  };
  log = sent 0 bye ∷ ClientOutput.error_from_server name content ∷ s.log;
}

error_line-branch :
    (net : Network) (name content : Bytes) (s : Tcp)
    → Spaceless name
    → process_received net (error_line name content) s
      ≡ (react error_server >>= on_error net (error_line name content)) s
unfolding process_received
error_line-branch net name content s h =
    rw (split_message-error_line name content h) (ground (arith, error_words))

process_received-error_line :
    (net : Network) (name content : Bytes) (s : Tcp)
    → validate_dname name ≡ true
    → Spaceless name
    → validate_content content ≡ true
    → s.fsm.current_state ≡ opened
    → is_restricted s.fsm.expected_action ≡ false
    → net (ClientOutput.error_from_server name content ∷ s.log) bye ≡ true
    → process_received net (error_line name content) s ≡ returns over (reported name content s)
unfolding validate_action on_error print
process_received-error_line net name content s n h c o e b =
    error_line-branch net name content s h
    ∙ reacted error_server any (fsm end (some opened) (bye_user ∷ [])) s _ (ground arith)
    ∙ rw (validate_error_server-error_line name content n h c, on_error)
        (sent_then net bye
          (record s {
            fsm = fsm end (some opened) (bye_user ∷ []);
            log = ClientOutput.error_from_server name content ∷ s.log;
          })
          _ b)

error_received :
    (net : Network) (name content : Bytes) (s : Tcp)
    → validate_dname name ≡ true
    → Spaceless name
    → validate_content content ≡ true
    → s.fsm.current_state ≡ opened
    → is_restricted s.fsm.expected_action ≡ false
    → net (ClientOutput.error_from_server name content ∷ s.log) bye ≡ true
    → process_server_message net (bytes (form_error_message name content) ∷ []) ([], s)
      ≡ some (returns over ([], reported name content s), [])
error_received net name content s n h c o e b = rw (form_error_message-error_line name content) (
    process_server_message-bytes net _ [] [] s (
      drain_buffer-unframe (process_received net) _ (error_line name content ∷ []) [] s refl
        (error_line-Lacks name content n c, tt) (unfold find_crlf in refl)
      ∙ ap some (
          ap (proceed_all (process_received net) (λ u. returns ready_for_input ([], u)) [])
            (process_received-error_line net name content s n h c o e b))))

-- The return of `poll` with an ERR that another client forms, in one piece.
abbrev pub error_comes : Bytes → Bytes → Poll Incoming
error_comes name content = record {
  interrupted = false;
  events =
      ready (some (record { failures = 0; last = Client.bytes (form_error_message name content) }))
        none;
}

-- An ERR that one TCP client forms is received by another one, in OPEN with nothing expected and an empty
-- buffer, whose loop is not over: it prints the name and the content, sends BYE, if the network takes
-- it, closes its socket and ends. The name is valid and has no space, and the content is valid.
pub error_ends_client :
    (net : Network) (name content : Bytes) (l : Loop Client) (s : Tcp) (more : List (Poll Incoming))
    → l.handler ≡ ([], s)
    → is_over l.state ≡ false
    → validate_dname name ≡ true
    → Spaceless name
    → validate_content content ≡ true
    → s.fsm.current_state ≡ opened
    → is_restricted s.fsm.expected_action ≡ false
    → net (ClientOutput.error_from_server name content ∷ s.log) bye ≡ true
    → run_event_loop (tcp_handler net) (error_comes name content ∷ more) l
      ≡ closes (record l {
        state = over;
        retry_count = l.retrans;
        handler = ([], reported name content s);
      })
error_ends_client net name content l s more k i n h c o e b =
    run_event_loop_step (tcp_handler net) _ more l _ i (
      round-received (tcp_handler net) _ l over ([], reported name content s)
        (ap
            (λ client.
              returned
                (process_server_message net (bytes (form_error_message name content) ∷ []) client))
            k
          ∙ ap returned (error_received net name content s n h c o e b)))
    ∙ run_event_loop_over (tcp_handler net) more _ refl
