-- ===== src/Udp/Unexpected.antt =====
-- What a confirmation does that no message awaits.
use ipk.Common.{ℕ, suc, ◌<◌, false, Option, List, [], ◌∷◌, some, ◌≡◌, ◌≢◌, refl, ◌∙◌, arith, Bytes}
use ipk.Protocol.{waiting_for_confirmation, over, sent, Network, returns}
use ipk.Stream.{Poll, Loop, ready, closes, is_over, round, run_event_loop}
use ipk.Stream.Retransmission.{silences, run_event_loop_step}
use ipk.Udp.Validator.{header}
use ipk.Udp.Handler.{Udp}
use ipk.Udp.Received.{RecvFrom, datagram, on_confirm, process_received, process_server_message}
use ipk.Udp.Awaited.{message_id-header}
use ipk.Udp.Client.{udp_handler, copies, Sends, unanswered_client_ends}

-- The return of `poll` with a CONFIRM of that id.
abbrev pub late : ℕ → ℕ → Option (Option Bytes) → Poll RecvFrom
late from id line = record {
  interrupted = false;
  events = ready (some (datagram from (header 0 id []))) line;
}

module _ (net : Network) where
  confirm_unexpected :
      (from id : ℕ) (s : Udp)
      → id < 65536
      → id ≢ s.awaited_conirm_id
      → process_server_message net (datagram from (header 0 id [])) s
        ≡ returns waiting_for_confirmation (record s { server_address = from })
  unfolding process_server_message process_received on_confirm
  confirm_unexpected from id s h n = ground (arith, message_id-header 0 id [] h)

  round-late :
      (from id : ℕ) (line : Option (Option Bytes)) (l : Loop Udp)
      → id < 65536
      → id ≢ l.handler.awaited_conirm_id
      → round (udp_handler net) (late from id line) l
        ≡ returns tt (record l {
          state = waiting_for_confirmation;
          handler = record (l.handler) { server_address = from };
        })
  unfolding round
  round-late from id line l h n = ground (arith, confirm_unexpected from id l.handler h n)

  -- A CONFIRM whose id, a uint16, is not the awaited one, also if none is awaited, makes a loop
  -- that is not over wait for a confirmation: if nothing else comes, the client sends its last
  -- message again as often as its retry count says, to the address that the CONFIRM came from,
  -- and closes its socket and ends. The network sends everything, and no signal comes with the
  -- CONFIRM.
  pub late_confirmation_ends :
      (from id : ℕ) (line : Option (Option Bytes)) (more : List (Poll RecvFrom)) (l : Loop Udp)
      → Sends net
      → is_over l.state ≡ false
      → id < 65536
      → id ≢ l.handler.awaited_conirm_id
      → run_event_loop (udp_handler net) (late from id line ∷ silences (suc l.retry_count) more) l
        ≡ closes (record l {
          state = over;
          retry_count = 0;
          handler = record (l.handler) {
            server_address = from;
            log = copies l.retry_count (sent from l.handler.last_message) l.handler.log;
          };
        })
  late_confirmation_ends from id line more l h o f n =
      run_event_loop_step (udp_handler net) (late from id line) _ l _ o
        (round-late from id line l f n)
      ∙ unanswered_client_ends net _ more h refl
