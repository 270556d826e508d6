-- ===== src/Udp/Farewell.antt =====
-- A BYE of the server that comes while a confirmation is awaited.
use ipk.Common.{
  ℕ, suc, ◌<◌, true, false, Option, List, [], ◌∷◌, ◌++◌, some, ◌≡◌, refl, ◌∙◌, arith, Bytes,
}
use ipk.Protocol.{waiting_for_confirmation, over, sent, Network, returns}
use ipk.Stream.{Poll, Loop, ready, closes, round, run_event_loop}
use ipk.Stream.Retransmission.{silences, run_event_loop_step}
use ipk.Udp.Validator.{header}
use ipk.Udp.Handler.{Udp, send_confirmation, send_message}
use ipk.Udp.Received.{RecvFrom, datagram, on_bye_message, process_received, process_server_message}
use ipk.Udp.Awaited.{message_id-header}
use ipk.Udp.Client.{udp_handler, copies, Sends, unanswered_client_ends}

-- The return of `poll` with a BYE of that id.
abbrev pub farewell : ℕ → ℕ → Option (Option Bytes) → Poll RecvFrom
farewell from id line = record {
  interrupted = false;
  events = ready (some (datagram from (header 0xff id []))) line;
}

-- The BYE is confirmed and its id kept.
abbrev pub parted : ℕ → ℕ → Udp → Udp
parted from id s = record s {
  server_address = from;
  received_ids = s.received_ids ++ id ∷ [];
  log = sent from (header 0 id []) ∷ s.log;
}

module _ (net : Network) where
  bye_held :
      (from id : ℕ) (s : Udp)
      → Sends net
      → id < 65536
      → s.waiting_for_confirmation ≡ true
      → process_server_message net (datagram from (header 0xff id [])) s
        ≡ returns waiting_for_confirmation (parted from id s)
  unfolding process_server_message process_received on_bye_message send_confirmation send_message
  bye_held from id s h f w =
      ground (arith, message_id-header 0xff id [] f, h s.log (header 0 id []), w)

  round-farewell :
      (from id : ℕ) (line : Option (Option Bytes)) (l : Loop Udp)
      → Sends net
      → id < 65536
      → l.handler.waiting_for_confirmation ≡ true
      → round (udp_handler net) (farewell from id line) l
        ≡ returns tt
            (record l { state = waiting_for_confirmation; handler = parted from id l.handler })
  unfolding round
  round-farewell from id line l h f w = ground (arith, bye_held from id l.handler h f w)

  -- A BYE of the server, whose id is a uint16, that comes while a confirmation is awaited does not
  -- end the client: it confirms the BYE, and if nothing else comes, sends its last message again as
  -- often as its retry count says, to the address that the BYE came from, before it closes its
  -- socket and ends. The network sends everything, and no signal comes with the BYE.
  pub bye_while_waiting_ends :
      (from id : ℕ) (line : Option (Option Bytes)) (more : List (Poll RecvFrom)) (l : Loop Udp)
      → Sends net
      → l.state ≡ waiting_for_confirmation
      → l.handler.waiting_for_confirmation ≡ true
      → id < 65536
      → run_event_loop
          (udp_handler net)
          (farewell from id line ∷ silences (suc l.retry_count) more)
          l
        ≡ closes (record l {
          state = over;
          retry_count = 0;
          handler = record (parted from id l.handler) {
            log =
                copies l.retry_count
                  (sent from l.handler.last_message)
                  (sent from (header 0 id []) ∷ l.handler.log);
          };
        })
  bye_while_waiting_ends from id line more l h s w f =
      run_event_loop_step (udp_handler net) (farewell from id line) _ l _ (rw s refl)
        (round-farewell from id line l h f w)
      ∙ unanswered_client_ends net _ more h refl
