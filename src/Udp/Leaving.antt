-- ===== src/Udp/Leaving.antt =====
-- How a UDP client ends after the interrupt: BYE, and the confirmation of BYE.
use ipk.Common.{
  ℕ, ◌<◌, ◌/◌, ◌%◌, [], Bool, true, false, List, ◌∷◌, Option, some, ◌≡◌, refl, arith, ◌∙◌, Bytes,
  lit, bytes_eq,
}
use ipk.Protocol.{over, waiting_for_confirmation, Network, returns}
use ipk.Stream.{Poll, Loop, ready, round, is_over, run_event_loop, closes}
use ipk.Stream.Retransmission.{run_event_loop_step, run_event_loop_over}
use ipk.Udp.Validator.{form_bye_message}
use ipk.Udp.Handler.{Udp, no_id, leave, send_message, send_awaited, send_bye, process_user_input}
use ipk.Udp.Received.{
  RecvFrom, datagram, on_confirm, on_confirmed, process_received, process_server_message,
}
use ipk.Udp.Sending.{awaiting, confirm_datagram}
use ipk.Udp.Client.{udp_handler}

-- The bytes of a BYE with that id.
abbrev pub bye_datagram : ℕ → Bytes
bye_datagram id = 0xff ∷ id / 256 % 256 ∷ id % 256 ∷ []

module _ (net : Network) where
  -- BYE is sent, and its confirmation is awaited.
  abbrev pub leaving : Udp → Udp
  leaving s = record (awaiting net (bye_datagram s.renamer3000) s) { awaiting_over = true }

  -- The confirmation has come from that address.
  abbrev pub left : ℕ → Udp → Udp
  left from s = record (leaving s) {
    server_address = from;
    awaited_conirm_id = no_id;
    waiting_for_confirmation = false;
  }

  exit_leaves :
      (s : Udp)
      → process_user_input net (lit "/exit") s ≡ returns waiting_for_confirmation (leaving s)
  unfolding process_user_input leave lit bytes_eq send_bye form_bye_message send_awaited
      send_message
  exit_leaves s = ground arith

  confirmed_bye :
      (from : ℕ) (s : Udp)
      → s.renamer3000 < 65536
      → process_server_message net (datagram from (confirm_datagram s.renamer3000)) (leaving s)
        ≡ returns over (left from s)
  unfolding process_server_message process_received on_confirm on_confirmed
  confirmed_bye from s h = ground arith

  interrupted_round :
      (poll : Poll RecvFrom) (l : Loop Udp)
      → poll.interrupted ≡ true
      → l.first_time_interrupted ≡ true
      → round (udp_handler net) poll l
        ≡ returns tt (record l {
          state = waiting_for_confirmation;
          first_time_interrupted = false;
          handler = leaving l.handler;
        })
  unfolding round
  interrupted_round poll l i f = ground (arith, exit_leaves l.handler)

  -- A datagram that ends the client, when the interrupt is not new.
  ending_round :
      (d : RecvFrom) (line : Option (Option Bytes)) (b : Bool) (l : Loop Udp) (s : Udp)
      → l.first_time_interrupted ≡ false
      → process_server_message net d l.handler ≡ returns over s
      → round (udp_handler net) (record { interrupted = b; events = ready (some d) line }) l
        ≡ returns tt (record l { state = over; retry_count = l.retrans; handler = s })
  unfolding round
  ending_round d line b l s f h = ground arith

  -- The first interrupt makes a UDP client whose loop is not over send BYE, the byte 0xff and its
  -- next id, a uint16, whatever its state is; a failure of the send is printed. When the server's
  -- confirmation of that BYE comes next, from any address, the client closes its socket and ends,
  -- and has sent nothing else since.
  pub interrupted_client_confirmed :
      (poll : Poll RecvFrom) (from : ℕ) (line : Option (Option Bytes)) (b : Bool)
      (more : List (Poll RecvFrom)) (l : Loop Udp)
      → is_over l.state ≡ false
      → poll.interrupted ≡ true
      → l.first_time_interrupted ≡ true
      → l.handler.renamer3000 < 65536
      → let confirmation = confirm_datagram l.handler.renamer3000 in
        run_event_loop
          (udp_handler net)
          (poll
            ∷ record { interrupted = b; events = ready (some (datagram from confirmation)) line }
            ∷ more)
          l
        ≡ closes (record l {
          state = over;
          retry_count = l.retrans;
          first_time_interrupted = false;
          handler = left from l.handler;
        })
  interrupted_client_confirmed poll from line b more l o i f h =
      run_event_loop_step (udp_handler net) poll _ l _ o (interrupted_round poll l i f)
      ∙ run_event_loop_step (udp_handler net) _ more _ _ refl
          (ending_round _ line b _ _ refl (confirmed_bye from l.handler h))
      ∙ run_event_loop_over (udp_handler net) more _ refl
