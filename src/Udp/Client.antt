-- ===== src/Udp/Client.antt =====
-- The event loop with the UDP handler: what a client does that is left without an answer.
use ipk.Common.{ℕ, zero, suc, true, List, ◌∷◌, ◌≡◌, refl, ap, ◌∙◌, Bytes}
use ipk.Protocol.{Effect, sent, Log, Network, waiting_for_confirmation, over}
use ipk.Stream.{ProtocolHandler, Poll, Loop, closes, run_event_loop}
use ipk.Stream.Retransmission.{silences, resends, run_event_loop-exhausted}
use ipk.Udp.Handler.{Udp, send_message, resend_last_message, process_user_input}
use ipk.Udp.Received.{RecvFrom, process_server_message}

-- `UDPProtocolHandler` as the event loop's handler.
abbrev pub udp_handler : Network → ProtocolHandler Udp RecvFrom
udp_handler net = record {
  process_server_message = process_server_message net;
  process_user_input = process_user_input net;
  resend_last_message = resend_last_message net;
}

-- So many copies of an effect before others.
abbrev pub copies : ℕ → Effect → Log → Log
copies zero e log = log
copies (suc n) e log = e ∷ copies n e log

pub copies-cons : (n : ℕ) (e : Effect) (log : Log) → copies n e (e ∷ log) ≡ copies (suc n) e log
copies-cons zero e log = refl
copies-cons (suc n) e log = ap (◌∷◌ e) (copies-cons n e log)

-- A network that sends everything.
abbrev pub Sends : Network → Type 0
Sends net = (log : Log) (m : Bytes) → net log m ≡ true

pub resends-copies :
    (net : Network) (n : ℕ) (s : Udp)
    → Sends net
    → resends (udp_handler net) n s
      ≡ record s { log = copies n (sent s.server_address s.last_message) s.log }
unfolding resend_last_message send_message
resends-copies net zero s h = refl
resends-copies net (suc n) s h =
    let e = sent s.server_address s.last_message in
    rw (h s.log s.last_message) (
      resends-copies net n (record s { log = e ∷ s.log }) h
      ∙ ap (λ log. record s { log = log }) (copies-cons n e s.log))

-- A UDP client that awaits a confirmation and gets nothing, on a network that sends everything: it
-- sends its last message again as often as its retry count says, to the address of the server,
-- does nothing else, and with one more timeout closes its socket and ends.
pub unanswered_client_ends :
    (net : Network) (l : Loop Udp) (more : List (Poll RecvFrom))
    → Sends net
    → l.state ≡ waiting_for_confirmation
    → run_event_loop (udp_handler net) (silences (suc l.retry_count) more) l
      ≡ closes (record l {
        state = over;
        retry_count = 0;
        handler = record (l.handler) {
          log =
              copies l.retry_count
                (sent l.handler.server_address l.handler.last_message)
                l.handler.log;
        };
      })
unanswered_client_ends net l more h s =
    run_event_loop-exhausted (udp_handler net) l.retry_count l more s refl
    ∙ ap (λ handler. closes (record l { state = over; retry_count = 0; handler = handler }))
        (resends-copies net l.retry_count l.handler h)
