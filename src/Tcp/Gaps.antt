-- ===== src/Tcp/Gaps.antt =====
-- Messages that are left in the buffer.
use ipk.Common.{true, false, List, ◌∷◌, ◌++◌, some, ◌≡◌, ap, ◌∙◌, Bytes, All}
use ipk.Text.Crlf.{Lacks, unframe}
use ipk.Grammar.{validate_dname, validate_content}
use ipk.Grammar.Split.{Spaceless}
use ipk.Fsm.{opened, is_restricted}
use ipk.Protocol.{waiting_for_reply, Network, returns}
use ipk.Tcp.Handler.{Tcp}
use ipk.Tcp.Received.{process_received}
use ipk.Tcp.Receive.{Recv, bytes, process_server_message}
use ipk.Tcp.Framing.{proceed_all, handle_all, drain_buffer-unframe}
use ipk.Tcp.RoundTrip.{message_line}
use ipk.Tcp.Delivery.{
  shown, message_line-Lacks, process_received-message_line, process_server_message-bytes,
}

module _ (net : Network) where
  first_stops :
      (name content : Bytes) (later : List Bytes) (tail : Bytes) (s : Tcp)
      → validate_dname name ≡ true
      → Spaceless name
      → validate_content content ≡ true
      → s.fsm.current_state ≡ opened
      → is_restricted s.fsm.expected_action ≡ false
      → s.waiting_for_reply ≡ true
      → handle_all (process_received net) (message_line name content ∷ later) tail s
        ≡ returns waiting_for_reply (unframe later tail, shown name content s)
  first_stops name content later tail s n h c o e w =
      ap
        (proceed_all (process_received net) (handle_all (process_received net) later tail)
          (unframe later tail))
        (process_received-message_line net name content s n h c o e)
      ∙ rw w

  -- A client in OPEN with nothing expected awaits a reply, and recv completes the buffer to a
  -- message with a valid name without spaces and a valid content, any number of other complete
  -- messages, and the start of one more. The call shows the first message and returns: the complete
  -- messages that follow it are left in the buffer, the awaited reply too if it is among them, and
  -- no further recv is made.
  pub waiting_client_stalls :
      (name content : Bytes) (later : List Bytes) (tail buffer received : Bytes) (calls : List Recv)
      (s : Tcp)
      → validate_dname name ≡ true
      → Spaceless name
      → validate_content content ≡ true
      → s.fsm.current_state ≡ opened
      → is_restricted s.fsm.expected_action ≡ false
      → s.waiting_for_reply ≡ true
      → All Lacks later
      → Lacks tail
      → buffer ++ received ≡ unframe (message_line name content ∷ later) tail
      → process_server_message net (bytes received ∷ calls) (buffer, s)
        ≡ some (returns waiting_for_reply (unframe later tail, shown name content s), calls)
  waiting_client_stalls name content later tail buffer received calls s n h c o e w l t b =
      process_server_message-bytes net received calls buffer s (
        drain_buffer-unframe (process_received net) _ (message_line name content ∷ later) tail s b
          (message_line-Lacks name content n c, l) t
        ∙ ap some (first_stops name content later tail s n h c o e w))
