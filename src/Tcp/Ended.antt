-- ===== src/Tcp/Ended.antt =====
-- The messages of the server after which a TCP client is over.
use ipk.Common.{false, ◌≡◌, ◌⊎◌, Bytes, lit, if_elim_eq}
use ipk.Fsm.{Action, any, error_user, error_server, bye_server, validate_action}
use ipk.Fsm.Ongoing.{
  OngoingOf, Answered, Answered-cases, bye_server-Answered, error_server-Answered,
}
use ipk.Protocol.{ClientState, Network, Run, ◌>>=◌}
use ipk.Tcp.Handler.{Tcp, react}
use ipk.Tcp.Received.{process_received}
use ipk.Tcp.Outcome.{Ends, on_error-Ends, on_bye-Ends, on_unknown-Ends}
use ipk.Tcp.Cases.{is_command, reacting_cases}
use ipk.Tcp.Session.{Reached, Reached-Ongoing}

module _ (net : Network) where
  reacting-Ends :
      (a : Action) (rest : Action → Tcp → Run Tcp ClientState) (s : Tcp)
      → Answered (validate_action s.fsm a)
      → ((r : Action) (t : Tcp) → (r ≡ any) ⊎ (r ≡ error_user) → Ends (rest r t))
      → Ends ((react a >>= rest) s)
  reacting-Ends a rest s h k =
      reacting_cases Ends Answered a rest s h (λ x. absurd x)
        (λ r g x. k r _ (Answered-cases r g x))

  -- In every state that a session of the TCP handler reaches, as long as no call returns OVER: a
  -- message of the server that is neither MSG nor REPLY, whatever else it is, ends the client: the
  -- call returns OVER, or the process exits in it.
  pub other_messages_end :
      (s : Tcp) (m : Bytes)
      → Reached net s
      → is_command m (lit "MSG") ≡ false
      → is_command m (lit "REPLY") ≡ false
      → Ends (process_received net m s)
  unfolding process_received
  other_messages_end s m r no_message no_reply =
      if_elim_eq At (is_command m (lit "MSG")) (λ e. cc (e, no_message))
        (λ _.
          if_elim_eq At (is_command m (lit "REPLY")) (λ e. cc (e, no_reply))
            (λ _.
              if_elim_eq At (is_command m (lit "ERR"))
                (λ _.
                  reacting-Ends error_server _ s (error_server-Answered going)
                    (on_error-Ends net m))
                (λ _.
                  if_elim_eq At (is_command m (lit "BYE"))
                    (λ _.
                      reacting-Ends bye_server _ s (bye_server-Answered going) (on_bye-Ends net))
                    (λ _. on_unknown-Ends net s))))
    where
      At : (Tcp → Run Tcp ClientState) → Type 0
      At k = Ends (k s)

      going : OngoingOf s.fsm
      going = Reached-Ongoing net r
