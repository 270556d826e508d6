-- ===== src/Udp/Recovery.antt =====
-- A message, or its confirmation, that is lost some times.
use ipk.Common.{
  ℕ, ◌+◌, ◌<◌, Bool, true, false, none, List, ◌∷◌, [], ◌≡◌, refl, ap, ◌∙◌, arith, if◌then◌else◌,
}
use ipk.Protocol.{
  ClientState, waiting_for_confirmation, waiting_for_reply, ready_for_input, sent, Network, returns,
}
use ipk.Stream.{awaits_confirmation, round, Poll, Loop, run_event_loop}
use ipk.Stream.Retransmission.{silences, run_event_loop_step, run_event_loop-silences}
use ipk.Stream.Rounds.{round-received}
use ipk.Udp.Validator.{header}
use ipk.Udp.Handler.{Udp, no_id}
use ipk.Udp.Received.{
  RecvFrom, datagram, on_confirm, on_confirmed, process_received, process_server_message,
}
use ipk.Udp.Client.{udp_handler, copies, Sends, resends-copies}
use ipk.Udp.Unexpected.{late}

-- What the client then waits for.
abbrev pub next_state : Bool → ClientState
next_state true = waiting_for_reply
next_state false = ready_for_input

retries_again :
    (b : Bool) (left retrans : ℕ)
    → (if awaits_confirmation (next_state b) then left else retrans) ≡ retrans
retries_again true left retrans = refl
retries_again false left retrans = refl

-- The confirmation has come from that address, after so many repetitions.
abbrev pub recovered : ℕ → ℕ → Udp → Udp
recovered from n s = record s {
  server_address = from;
  awaited_conirm_id = no_id;
  waiting_for_reply = false;
  waiting_for_confirmation = false;
  log = copies n (sent s.server_address s.last_message) s.log;
}

module _ (net : Network) where
  confirmed_at_last :
      (from : ℕ) (s : Udp)
      → s.awaited_conirm_id < 65536
      → s.awaiting_over ≡ false
      → s.error_sent ≡ false
      → process_server_message net (datagram from (header 0 s.awaited_conirm_id [])) s
        ≡ returns (next_state s.waiting_for_reply) (recovered from 0 s)
  unfolding process_server_message process_received on_confirm on_confirmed
  confirmed_at_last from s i o e = ground arith

  confirmed_round :
      (from left : ℕ) (l : Loop Udp)
      → l.handler.awaited_conirm_id < 65536
      → l.handler.awaiting_over ≡ false
      → l.handler.error_sent ≡ false
      → round
          (udp_handler net)
          (late from l.handler.awaited_conirm_id none)
          (record l { retry_count = left })
        ≡ returns tt (record l {
          state = next_state l.handler.waiting_for_reply;
          retry_count = l.retrans;
          handler = recovered from 0 l.handler;
        })
  confirmed_round from left l i o e =
      round-received (udp_handler net) _ (record l { retry_count = left }) _ _
        (confirmed_at_last from l.handler i o e)
      ∙ ap
          (λ n. returns tt (record l {
            state = next_state l.handler.waiting_for_reply;
            retry_count = n;
            handler = recovered from 0 l.handler;
          }))
          (retries_again l.handler.waiting_for_reply left l.retrans)

  -- A UDP client that awaits the confirmation of a message, with a uint16 for an id, with no BYE or
  -- ERR under way, on a network that sends everything. If `poll` times out at most as often as the retry
  -- count says, and then the confirmation comes, with no signal, the client has sent its last message
  -- again at each timeout and goes on as without the loss: it waits for the reply, if it asked for one, or
  -- is ready for input, and may repeat its next message as often as the configuration says.
  pub lost_message_recovered :
      (lost left from : ℕ) (more : List (Poll RecvFrom)) (l : Loop Udp)
      → Sends net
      → l.state ≡ waiting_for_confirmation
      → l.retry_count ≡ lost + left
      → l.handler.awaited_conirm_id < 65536
      → l.handler.awaiting_over ≡ false
      → l.handler.error_sent ≡ false
      → run_event_loop
          (udp_handler net)
          (silences lost (late from l.handler.awaited_conirm_id none ∷ more))
          l
        ≡ run_event_loop (udp_handler net) more (record l {
          state = next_state l.handler.waiting_for_reply;
          retry_count = l.retrans;
          handler = recovered from lost l.handler;
        })
  lost_message_recovered lost left from more l h s r i o e =
      let p = udp_handler net in
      let confirmation = late from l.handler.awaited_conirm_id none in
      let u : Udp = record (l.handler) {
        log = copies lost (sent l.handler.server_address l.handler.last_message) l.handler.log;
      } in
      run_event_loop-silences p lost left l (confirmation ∷ more) s r
      ∙ ap
          (λ v.
            run_event_loop p (confirmation ∷ more) (record l { handler = v; retry_count = left }))
          (resends-copies net lost l.handler h)
      ∙ run_event_loop_step p confirmation more (record l { handler = u; retry_count = left }) _
          (rw s refl) (confirmed_round from left (record l { handler = u }) i o e)
