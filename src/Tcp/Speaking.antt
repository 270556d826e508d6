-- ===== src/Tcp/Speaking.antt =====
-- What a TCP client sends for the user: lines of the protocol only.
use ipk.Common.{refl, Bool, true, false, ◌∷◌, ◌≡◌, arith, Bytes, lit, if_elim_eq, if◌then◌else◌}
use ipk.Fsm.{
  Action, any, warn_client, authorize_user, join_user, message_user, Fsm, validate_action,
}
use ipk.Fsm.Sessions.{Chats}
use ipk.Fsm.Login.{Leads}
use ipk.ClientOutput
use ipk.Protocol.{ClientState, Effect, sent, cerr, Network, Run, returns, exits, ◌>>=◌, ◌>>◌}
use ipk.Tcp.Validator.{authorize_validate, join_validate, message_validate, rename}
use ipk.Tcp.Handler.{
  Tcp, bye, react, print, set_waiting, print_help, send_message, on_auth, on_join, on_message,
  on_rename, process_user_input,
}
use ipk.Tcp.Cases.{reacting_cases, process_user_input_cases}
use ipk.Tcp.Passes.{Typed, by_auth, by_join, by_message}
use ipk.Tcp.Line.{LineOf, SendsLineOf, SpeaksOf, SpeaksAfter}
use ipk.Tcp.Formed.{
  authorize_validate-Named, authorize_validate-Line, join_validate-Line, message_validate-Line,
}

module _ {may : Type 0} {I : Fsm → Type 0} where
  pub logged-SpeaksOf :
      (e : Effect) (s : Tcp)
      → SendsLineOf may e
      → SpeaksOf may I s
      → SpeaksOf may I (record s { log = e ∷ s.log })
  logged-SpeaksOf e s x h = record {
    is_named = h.is_named;
    log_sends = (x, h.log_sends);
    machine = h.machine;
  }

  -- An error of the client is printed.
  pub complaint-SpeaksOf :
      (text : Bytes) (s : Tcp)
      → SpeaksOf may I s
      → SpeaksOf may I (record s { log = ClientOutput.internal_error_message text ∷ s.log })
  unfolding ClientOutput.internal_error_message
  complaint-SpeaksOf text s h = logged-SpeaksOf (cerr _) s tt h

  print_help-SpeaksOf :
      (s : Tcp)
      → SpeaksOf may I s
      → SpeaksOf may I (record s { log = ClientOutput.print_help s.log })
  unfolding ClientOutput.print_help
  print_help-SpeaksOf s h = record {
    is_named = h.is_named;
    log_sends = (tt, (tt, (tt, (tt, (tt, (tt, h.log_sends))))));
    machine = h.machine;
  }

module _ (net : Network) {may : Type 0} {I : Fsm → Type 0} where
  -- A send, and what follows it.
  pub sends-SpeaksAfter :
      (m : Bytes) (k : Tcp → Run Tcp ClientState) (s : Tcp)
      → LineOf may m
      → SpeaksOf may I s
      → ((t : Tcp) → SpeaksOf may I t → SpeaksAfter may I (k t))
      → SpeaksAfter may I ((send_message net m >> k) s)
  unfolding send_message
  sends-SpeaksAfter m k s w h f = go (net s.log m)
    where
      l : SpeaksOf may I (record s { log = sent 0 m ∷ s.log })
      l = logged-SpeaksOf (sent 0 m) s w h

      go :
          (b : Bool)
          → SpeaksAfter may I (
              ◌>>◌ {S = Tcp}
                (λ _.
                  if b
                  then returns tt (record s { log = sent 0 m ∷ s.log })
                  else exits (record s {
                    log = cerr (lit "Error sending message to the server") ∷ sent 0 m ∷ s.log;
                  }))
                k
                s)
      go true = f _ l
      go false = logged-SpeaksOf (cerr _) (record s { log = sent 0 m ∷ s.log }) tt l

  on_auth-SpeaksAfter :
      (argument : Bytes) (r : Action) (s : Tcp)
      → SpeaksOf may I s
      → SpeaksAfter may I (on_auth net argument r s)
  unfolding on_auth print set_waiting
  on_auth-SpeaksAfter argument any s h =
      let first = authorize_validate s.display_name argument in
      let second = authorize_validate first.1 argument in
      let t = record s { display_name = second.1 } in
      let g : SpeaksOf may I t = record {
        is_named =
            authorize_validate-Named first.1 argument
              (authorize_validate-Named s.display_name argument h.is_named);
        log_sends = h.log_sends;
        machine = h.machine;
      } in
      if_elim_eq (SpeaksAfter may I) second.0.1
        (λ e.
          sends-SpeaksAfter first.0.0 _ t
            (authorize_validate-Line s.display_name first.1 argument e) g (λ u x. x))
        (λ _. complaint-SpeaksOf first.0.0 t g)
  on_auth-SpeaksAfter argument warn_client s h = complaint-SpeaksOf _ s h
  on_auth-SpeaksAfter argument _ s h = tt

  on_join-SpeaksAfter :
      (argument : Bytes) (r : Action) (s : Tcp)
      → (r ≡ any → may)
      → SpeaksOf may I s
      → SpeaksAfter may I (on_join net argument r s)
  unfolding on_join print set_waiting
  on_join-SpeaksAfter argument any s c h =
      if_elim_eq (SpeaksAfter may I) (join_validate s.display_name argument).1
        (λ e.
          sends-SpeaksAfter _ _ s (join_validate-Line s.display_name argument (c refl) h.is_named e)
            h (λ u x. x))
        (λ _. complaint-SpeaksOf _ s h)
  on_join-SpeaksAfter argument warn_client s c h = complaint-SpeaksOf _ s h
  on_join-SpeaksAfter argument _ s c h = tt

  on_message-SpeaksAfter :
      (m : Bytes) (r : Action) (s : Tcp)
      → (r ≡ any → may)
      → SpeaksOf may I s
      → SpeaksAfter may I (on_message net m r s)
  unfolding on_message print
  on_message-SpeaksAfter m any s c h =
      if_elim_eq (SpeaksAfter may I) (message_validate s.display_name m).1
        (λ e.
          sends-SpeaksAfter _ _ s (message_validate-Line s.display_name m (c refl) h.is_named e) h
            (λ u x. x))
        (λ _. complaint-SpeaksOf _ s h)
  on_message-SpeaksAfter m warn_client s c h = complaint-SpeaksOf _ s h
  on_message-SpeaksAfter m _ s c h = h

  on_rename-SpeaksAfter :
      (argument : Bytes) (s : Tcp) → SpeaksOf may I s → SpeaksAfter may I (on_rename net argument s)
  unfolding on_rename rename print
  on_rename-SpeaksAfter argument s h =
      ground (arith, complaint-SpeaksOf (lit "Invalid display name format") s h)

  pub reacting-SpeaksAfter :
      (a : Action) (rest : Action → Tcp → Run Tcp ClientState) (s : Tcp)
      → Leads may I a (validate_action s.fsm a)
      → ((r : Action) (t : Tcp)
          → (Chats a → r ≡ any → may)
          → SpeaksOf may I t
          → SpeaksAfter may I (rest r t))
      → SpeaksOf may I s
      → SpeaksAfter may I ((react a >>= rest) s)
  reacting-SpeaksAfter a rest s l k h =
      reacting_cases (SpeaksAfter may I) (Leads may I a) a rest s l (λ x. tt)
        (λ r g (i, c).
          k r _ c (record { is_named = h.is_named; log_sends = h.log_sends; machine = i }))

  pub process_user_input-SpeaksAfter :
      (m : Bytes) (s : Tcp)
      → ((a : Action) → Typed m a → Leads may I a (validate_action s.fsm a))
      → SpeaksOf may I s
      → SpeaksAfter may I (process_user_input net m s)
  unfolding print print_help
  process_user_input-SpeaksAfter m s l h =
      process_user_input_cases net (SpeaksAfter may I) m s
        (sends-SpeaksAfter bye _ s LineOf.bye h (λ u x. x))
        (λ e.
          reacting-SpeaksAfter authorize_user _ s (l _ (by_auth e))
            (λ r u _. on_auth-SpeaksAfter _ r u) h)
        (reacting-SpeaksAfter join_user _ s (l _ by_join)
          (λ r u c. on_join-SpeaksAfter _ r u (c Chats.join)) h)
        (λ _. on_rename-SpeaksAfter _ s h) (print_help-SpeaksOf s h) (complaint-SpeaksOf _ s h)
        (reacting-SpeaksAfter message_user _ s (l _ by_message)
          (λ r u c. on_message-SpeaksAfter m r u (c Chats.message)) h)
