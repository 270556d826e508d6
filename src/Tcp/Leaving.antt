-- ===== src/Tcp/Leaving.antt =====
-- How a TCP client ends: by the interrupt, by the end of the standard input, or by a socket that is
-- closed or broken.
use ipk.Common.{
  ℕ, zero, suc, true, false, List, [], ◌∷◌, ◌++◌, ◌≡◌, refl, arith, ◌∙◌, Bytes, lit, bytes_eq,
}
use ipk.Protocol.{over, sent, cerr, Log, Network, returns}
use ipk.Stream.{Poll, Loop, round, is_over, run_event_loop, closes}
use ipk.Stream.Retransmission.{run_event_loop_step, run_event_loop_over}
use ipk.Tcp.Handler.{Tcp, bye, process_user_input}
use ipk.Tcp.Receive.{failed, Recv, process_server_message}
use ipk.Tcp.Outcome.{sent_then}
use ipk.Tcp.Client.{Client, Incoming, tcp_handler}

-- The object after BYE.
abbrev pub bye_sent : Tcp → Tcp
bye_sent s = record s { log = sent 0 bye ∷ s.log }

-- So many reports of a failed `recv` before others.
abbrev recv_reports : ℕ → Log → Log
recv_reports zero log = log
recv_reports (suc n) log = recv_reports n (cerr (lit "recv") ∷ log)

abbrev failures : ℕ → List Recv
failures zero = []
failures (suc n) = failed ∷ failures n

module _ (net : Network) where
  exit_sends :
      (s : Tcp)
      → net s.log bye ≡ true
      → process_user_input net (lit "/exit") s ≡ returns over (bye_sent s)
  unfolding process_user_input lit bytes_eq
  exit_sends s h = sent_then net bye s _ h

  interrupted_round :
      (poll : Poll Incoming) (l : Loop Client)
      → poll.interrupted ≡ true
      → l.first_time_interrupted ≡ true
      → net l.handler.1.log bye ≡ true
      → round (tcp_handler net) poll l
        ≡ returns tt (record l {
          state = over;
          first_time_interrupted = false;
          handler = (l.handler.0, bye_sent l.handler.1);
        })
  unfolding round
  interrupted_round poll l i f h = ground (arith, exit_sends l.handler.1 h)

  -- The first interrupt makes a TCP client whose loop is not over send BYE, close its socket and
  -- end, whatever its state is and whatever else `poll` reports, if the network takes the BYE.
  pub interrupted_client_leaves :
      (poll : Poll Incoming) (more : List (Poll Incoming)) (l : Loop Client)
      → is_over l.state ≡ false
      → poll.interrupted ≡ true
      → l.first_time_interrupted ≡ true
      → net l.handler.1.log bye ≡ true
      → run_event_loop (tcp_handler net) (poll ∷ more) l
        ≡ closes (record l {
          state = over;
          first_time_interrupted = false;
          handler = (l.handler.0, bye_sent l.handler.1);
        })
  interrupted_client_leaves poll more l o i f h =
      run_event_loop_step (tcp_handler net) poll more l _ o (interrupted_round poll l i f h)
      ∙ run_event_loop_over (tcp_handler net) more _ refl

  -- While `recv` fails, `process_server_message` reports it and calls `recv` again: any number of
  -- failures leave it waiting for the results that follow, with as many reports printed.
  recv_failures_repeat :
      (n : ℕ) (calls : List Recv) (buffer : Bytes) (s : Tcp)
      → process_server_message net (failures n ++ calls) (buffer, s)
        ≡ process_server_message net calls (buffer, record s { log = recv_reports n s.log })
  unfolding process_server_message
  recv_failures_repeat zero calls buffer s = refl
  recv_failures_repeat (suc n) calls buffer s = recv_failures_repeat n calls buffer _
