-- ===== src/Udp/Speaking.antt =====
-- Each method of the UDP handler sends datagrams of the protocol only.
use ipk.Common.{◌≡◌, refl, not, get_or, [], arith, Bytes, lit, length, ◌==◌, if_elim, if_elim_eq}
use ipk.Udp.Fields.{split_message}
use ipk.Fsm.{
  Action, any, warn_client, authorize_user, join_user, message_user, Fsm, validate_action,
}
use ipk.Fsm.Sessions.{Chats}
use ipk.Fsm.Login.{Leads}
use ipk.ClientOutput
use ipk.Protocol.{ClientState, Network, Run, returns, exits, undefined}
use ipk.Udp.Validator.{authorize_validate, join_validate, message_validate, rename}
use ipk.Udp.Handler.{
  Udp, reacting, on_auth, on_join, on_message, on_rename, leave, process_user_input,
}
use ipk.Udp.Cases.{reacting_cases, process_user_input_cases}
use ipk.Udp.Formed.{
  authorize_validate-Named, authorize_validate-Request, join_validate-Request,
  message_validate-Request,
}
use ipk.Udp.Passes.{Typed, by_auth, by_join, by_message}
use ipk.Udp.Wire.{Named, SpeaksOf}
use ipk.Udp.Sequence.{aside}
use ipk.Udp.SpeakingSends.{
  complaint-SpeaksOf, send_awaited-SpeaksOf, send_error_message-SpeaksOf, send_bye-SpeaksOf,
}

-- The state that a method leaves.
abbrev pub SpeaksAfter : Type 0 → (Fsm → Type 0) → Run Udp ClientState → Type 0
SpeaksAfter may I (returns _ s) = SpeaksOf may I s
SpeaksAfter may I (exits s) = SpeaksOf may I s
SpeaksAfter may I undefined = Unit

print_help-SpeaksOf :
    {may : Type 0} {I : Fsm → Type 0} (s : Udp)
    → SpeaksOf may I s
    → SpeaksOf may I (record s { log = ClientOutput.print_help s.log })
unfolding ClientOutput.print_help
print_help-SpeaksOf s h = record {
  is_named = h.is_named;
  log_sends = (tt, (tt, (tt, (tt, (tt, (tt, h.log_sends))))));
  last_sends = h.last_sends;
  error_valid = h.error_valid;
  in_order = aside tt (aside tt (aside tt (aside tt (aside tt (aside tt h.in_order)))));
  machine = h.machine;
}

module _ (net : Network) {may : Type 0} {I : Fsm → Type 0} where
  renamed-SpeaksOf :
      (name : Bytes) (s : Udp)
      → Named name
      → SpeaksOf may I s
      → SpeaksOf may I (record s { display_name = name })
  renamed-SpeaksOf name s n h = record {
    is_named = n;
    log_sends = h.log_sends;
    last_sends = h.last_sends;
    error_valid = h.error_valid;
    in_order = h.in_order;
    machine = h.machine;
  }

  on_auth-SpeaksAfter :
      (argument : Bytes) (r : Action) (s : Udp)
      → SpeaksOf may I s
      → SpeaksAfter may I (on_auth net argument r s)
  unfolding on_auth
  on_auth-SpeaksAfter argument any s h =
      let parts = split_message argument in
      let u = get_or parts 0 [] in
      let n = get_or parts 2 [] in
      let x = get_or parts 1 [] in
      let result = authorize_validate s.display_name 0x02 s.renamer3000 u n x in
      let t = record s { display_name = result.1 } in
      let named =
        renamed-SpeaksOf result.1 s
          (authorize_validate-Named s.display_name s.renamer3000 u n x h.is_named) h in
      if_elim (SpeaksAfter may I) (not (length parts == 3)) (complaint-SpeaksOf _ s h) (
        if_elim_eq (SpeaksAfter may I) result.0.1
          (λ e.
            send_awaited-SpeaksOf net _ t
              (authorize_validate-Request s.display_name s.renamer3000 u n x e) named)
          (λ _. complaint-SpeaksOf _ t named))
  on_auth-SpeaksAfter argument warn_client s h = complaint-SpeaksOf _ s h
  on_auth-SpeaksAfter argument _ s h = tt

  on_join-SpeaksAfter :
      (argument : Bytes) (r : Action) (s : Udp)
      → (r ≡ any → may)
      → SpeaksOf may I s
      → SpeaksAfter may I (on_join net argument r s)
  unfolding on_join
  on_join-SpeaksAfter argument any s c h =
      let parts = split_message argument in
      let result = join_validate s.display_name 0x03 s.renamer3000 (get_or parts 0 []) in
      if_elim (SpeaksAfter may I) (not (length parts == 1)) (complaint-SpeaksOf _ s h) (
        if_elim_eq (SpeaksAfter may I) result.1
          (λ e.
            send_awaited-SpeaksOf net _ s
              (join_validate-Request s.display_name s.renamer3000 _ (c refl) h.is_named e) h)
          (λ _. complaint-SpeaksOf _ s h))
  on_join-SpeaksAfter argument warn_client s c h = complaint-SpeaksOf _ s h
  on_join-SpeaksAfter argument _ s c h = tt

  on_message-SpeaksAfter :
      (m : Bytes) (r : Action) (s : Udp)
      → (r ≡ any → may)
      → SpeaksOf may I s
      → SpeaksAfter may I (on_message net m r s)
  unfolding on_message
  on_message-SpeaksAfter m any s c h =
      let result = message_validate s.display_name 0x04 s.renamer3000 m in
      if_elim_eq (SpeaksAfter may I) result.1
        (λ e.
          send_awaited-SpeaksOf net _ s
            (message_validate-Request s.display_name s.renamer3000 m (c refl) h.is_named e) h)
        (λ _. complaint-SpeaksOf _ s h)
  on_message-SpeaksAfter m warn_client s c h = complaint-SpeaksOf _ s h
  on_message-SpeaksAfter m _ s c h = tt

  on_rename-SpeaksAfter :
      (argument : Bytes) (s : Udp) → SpeaksOf may I s → SpeaksAfter may I (on_rename net argument s)
  unfolding on_rename rename
  on_rename-SpeaksAfter argument s h =
      ground (arith, complaint-SpeaksOf (lit "Invalid display name format") s h)

  pub reacting-SpeaksAfter :
      (a : Action) (rest : Action → Udp → Run Udp ClientState) (s : Udp)
      → Leads may I a (validate_action s.fsm a)
      → ((r : Action) (t : Udp)
          → (Chats a → r ≡ any → may)
          → SpeaksOf may I t
          → SpeaksAfter may I (rest r t))
      → SpeaksOf may I s
      → SpeaksAfter may I (reacting a rest s)
  reacting-SpeaksAfter a rest s l k h =
      reacting_cases (SpeaksAfter may I) (Leads may I a) a rest s l (λ x. tt)
        (λ r g (i, c). k r _ c (record {
          is_named = h.is_named;
          log_sends = h.log_sends;
          last_sends = h.last_sends;
          error_valid = h.error_valid;
          in_order = h.in_order;
          machine = i;
        }))

  pub process_user_input-SpeaksAfter :
      (m : Bytes) (s : Udp)
      → ((a : Action) → Typed m a → Leads may I a (validate_action s.fsm a))
      → SpeaksOf may I s
      → SpeaksAfter may I (process_user_input net m s)
  unfolding leave
  process_user_input-SpeaksAfter m s l h =
      process_user_input_cases net (SpeaksAfter may I) m s (send_bye-SpeaksOf net s h)
        (λ e. send_error_message-SpeaksOf net s.error_message s (h.error_valid e) h)
        (λ e.
          reacting-SpeaksAfter authorize_user _ s (l _ (by_auth e))
            (λ r u _. on_auth-SpeaksAfter _ r u) h)
        (reacting-SpeaksAfter join_user _ s (l _ by_join)
          (λ r u c. on_join-SpeaksAfter _ r u (c Chats.join)) h)
        (λ _ _. on_rename-SpeaksAfter _ s h) (print_help-SpeaksOf s h) (complaint-SpeaksOf _ s h)
        (reacting-SpeaksAfter message_user _ s (l _ by_message)
          (λ r u c. on_message-SpeaksAfter m r u (c Chats.message)) h)
