-- ===== src/Tests/EventLoop.antt =====
-- The event loop at concrete returns of `poll`.
use ipk.Common.{true, [], ◌∷◌, none, ◌≡◌, refl, arith}
use ipk.Protocol.{waiting_for_confirmation, over, sent, Network}
use ipk.Stream.{Loop, closes, run_event_loop}
use ipk.Stream.Retransmission.{silences}
use ipk.Udp.Validator.{header}
use ipk.Udp.Handler.{Udp, new_udp}
use ipk.Udp.Client.{udp_handler, copies}
use ipk.Udp.Unexpected.{late}
use ipk.Udp.Recovery.{next_state, recovered, lost_message_recovered}
use ipk.Udp.Farewell.{farewell, parted, bye_while_waiting_ends}

-- A UDP client that has just sent a message.
abbrev client : Loop Udp
client = record {
  state = waiting_for_confirmation;
  retry_count = 2;
  retrans = 2;
  first_time_interrupted = true;
  handler = record (new_udp 7) {
    waiting_for_confirmation = true;
    last_message = 0xff ∷ 0 ∷ 0 ∷ [];
  };
}

abbrev net : Network
net _ _ = true

bye_while_waiting_ends_example :
    run_event_loop (udp_handler net) (farewell 8 5 none ∷ silences 3 []) client
    ≡ closes (record client {
      state = over;
      retry_count = 0;
      handler = record (parted 8 5 client.handler) {
        log =
            copies 2
              (sent 8 client.handler.last_message)
              (sent 8 (header 0 5 []) ∷ client.handler.log);
      };
    })
bye_while_waiting_ends_example =
    bye_while_waiting_ends net 8 5 none [] client (λ _ _. refl) refl refl (omega arith)

-- One loss, where two are possible.
lost_message_recovered_example :
    run_event_loop
      (udp_handler net)
      (silences 1 (late 8 client.handler.awaited_conirm_id none ∷ []))
      client
    ≡ run_event_loop (udp_handler net) [] (record client {
      state = next_state client.handler.waiting_for_reply;
      retry_count = client.retrans;
      handler = recovered 8 1 client.handler;
    })
unfolding new_udp
lost_message_recovered_example =
    lost_message_recovered net 1 1 8 [] client (λ _ _. refl) refl refl (omega arith) refl refl
