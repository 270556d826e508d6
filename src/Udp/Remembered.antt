-- ===== src/Udp/Remembered.antt =====
-- The ids of the server's messages that a client keeps, through every input.
use ipk.Common.{ℕ, true, [], ◌∷◌, ◌++◌, List, ◌≡◌, arith, Bytes, inl, inr, Bool-cases}
use ipk.Fsm.{
  Action, any, error_user, warn_client, authorize_user, join_user, message_user, nreply_server,
  reply_server, message_server, error_server,
}
use ipk.ClientOutput
use ipk.Protocol.{ClientState, Network, Run, returns, exits, undefined}
use ipk.Udp.Validator.{rename}
use ipk.Udp.Handler.{
  Udp, id_lookup, reacting, send_message, send_confirmation, send_awaited, send_error_message,
  send_bye, leave, on_auth, on_join, on_rename, on_message, process_user_input, resend_last_message,
}
use ipk.Udp.Received.{
  message_id, RecvFrom, failed, datagram, held, on_confirmed, on_confirm, on_awaited_reply,
  on_nreply, on_reply, on_msg, on_err, on_bye_message, process_received, process_server_message,
}
use ipk.Udp.Cases.{
  truncated, truncated_undefined, reacting_cases, process_received_cases, process_user_input_cases,
}
use ipk.Udp.Session.{Input, line, socket, timeout, input}

abbrev pub Remembers : ℕ → Udp → Type 0
Remembers id s = id_lookup id s.received_ids ≡ true

abbrev RemembersAfter : ℕ → Run Udp ClientState → Type 0
RemembersAfter id (returns _ s) = Remembers id s
RemembersAfter id (exits s) = Unit
RemembersAfter id undefined = Unit

id_lookup-later :
    (id j : ℕ) (ids : List ℕ) → id_lookup id ids ≡ true → id_lookup id (ids ++ j ∷ []) ≡ true
unfolding id_lookup
id_lookup-later id j [] h = cc h
id_lookup-later id j (i ∷ ids) h = ground (arith, id_lookup-later id j ids)

module _ (net : Network) (id : ℕ) where
  abbrev After : Run Udp ClientState → Type 0
  After = RemembersAfter id

  send_message-Remembers :
      (m : Bytes) (s : Udp) → Remembers id s → Remembers id (send_message net m s)
  unfolding send_message
  send_message-Remembers m s h = ground arith

  send_error_message-Remembers :
      (e : Bytes) (s : Udp) → Remembers id s → Remembers id (send_error_message net e s)
  unfolding send_error_message send_awaited send_message
  send_error_message-Remembers e s h = ground arith

  on_auth-After :
      (argument : Bytes) (r : Action) (s : Udp) → Remembers id s → After (on_auth net argument r s)
  unfolding on_auth send_awaited send_message
  on_auth-After argument any s h = ground arith
  on_auth-After argument warn_client s h = h
  on_auth-After argument _ s h = tt

  on_join-After :
      (argument : Bytes) (r : Action) (s : Udp) → Remembers id s → After (on_join net argument r s)
  unfolding on_join send_awaited send_message
  on_join-After argument any s h = ground arith
  on_join-After argument warn_client s h = h
  on_join-After argument _ s h = tt

  on_message-After :
      (m : Bytes) (r : Action) (s : Udp) → Remembers id s → After (on_message net m r s)
  unfolding on_message send_awaited send_message
  on_message-After m any s h = ground arith
  on_message-After m warn_client s h = h
  on_message-After m _ s h = tt

  on_rename-After : (argument : Bytes) (s : Udp) → Remembers id s → After (on_rename net argument s)
  unfolding on_rename rename
  on_rename-After argument s h = ground arith

  reacting-After :
      (a : Action) (rest : Action → Udp → Run Udp ClientState) (s : Udp)
      → ((r : Action) (t : Udp) → Remembers id t → After (rest r t))
      → Remembers id s
      → After (reacting a rest s)
  reacting-After a rest s k h =
      reacting_cases After (λ o. Unit) a rest s tt (λ x. tt) (λ r g x. k r _ h)

  process_user_input-After :
      (m : Bytes) (s : Udp) → Remembers id s → After (process_user_input net m s)
  unfolding leave send_bye send_awaited ClientOutput.print_help
  process_user_input-After m s h =
      process_user_input_cases net After m s (send_message-Remembers _ s h)
        (λ _. send_error_message-Remembers s.error_message s h)
        (λ _. reacting-After authorize_user _ s (on_auth-After _) h)
        (reacting-After join_user _ s (on_join-After _) h) (λ _ _. on_rename-After _ s h) h h
        (reacting-After message_user _ s (on_message-After m) h)

  on_confirm-After : (m : Bytes) (s : Udp) → Remembers id s → After (on_confirm net m s)
  unfolding on_confirm on_confirmed send_bye send_awaited send_message
  on_confirm-After m s h = ground arith

  on_nreply-After :
      (i ref : ℕ) (m : Bytes) (r : Action) (s : Udp)
      → Remembers id s
      → After (on_nreply net i ref m r s)
  unfolding on_nreply on_awaited_reply send_confirmation send_message
  on_nreply-After i ref m any s h = ground (arith, id_lookup-later id i s.received_ids h)
  on_nreply-After i ref m error_user s h =
      send_error_message-Remembers _ _ (send_message-Remembers _ s h)
  on_nreply-After i ref m _ s h = tt

  on_reply-After :
      (i ref : ℕ) (m : Bytes) (r : Action) (s : Udp)
      → Remembers id s
      → After (on_reply net i ref m r s)
  unfolding on_reply on_awaited_reply send_confirmation send_message
  on_reply-After i ref m any s h = ground (arith, id_lookup-later id i s.received_ids h)
  on_reply-After i ref m error_user s h =
      send_error_message-Remembers _ _ (send_message-Remembers _ s h)
  on_reply-After i ref m _ s h = tt

  on_msg-After :
      (i : ℕ) (w : List Bytes) (r : Action) (s : Udp) → Remembers id s → After (on_msg net i w r s)
  unfolding on_msg send_confirmation send_message
  on_msg-After i w any s h = ground (arith, id_lookup-later id i s.received_ids h)
  on_msg-After i w _ s h = send_error_message-Remembers _ s h

  on_err-After :
      (i : ℕ) (w : List Bytes) (r : Action) (s : Udp) → Remembers id s → After (on_err net i w r s)
  unfolding on_err send_bye send_awaited send_confirmation send_message
  on_err-After i w any s h = ground (arith, id_lookup-later id i s.received_ids h)
  on_err-After i w _ s h = send_error_message-Remembers _ _ (send_message-Remembers _ s h)

  on_bye_message-After : (m : Bytes) (s : Udp) → Remembers id s → After (on_bye_message net m s)
  unfolding on_bye_message send_confirmation send_error_message send_awaited send_message
  on_bye_message-After m s h = ground (arith, id_lookup-later id (message_id m) s.received_ids h)

  refused-After :
      (e : Bytes) (i : ℕ) (s : Udp)
      → Remembers id s
      → Remembers id (send_error_message net e (send_confirmation net i s))
  unfolding send_confirmation
  refused-After e i s h = send_error_message-Remembers e _ (send_message-Remembers _ s h)

  process_received-After : (m : Bytes) (s : Udp) → Remembers id s → After (process_received net m s)
  process_received-After m s h = elim (Bool-cases (truncated m)) [
    | inl e ↦ rw (truncated_undefined net m s e) tt
    | inr e ↦
        process_received_cases net After m s e (λ _. on_confirm-After m s h)
          (λ i ref w _. reacting-After nreply_server _ s (on_nreply-After i ref w) h)
          (λ i ref w _ _. reacting-After reply_server _ s (on_reply-After i ref w) h)
          (λ i w _. reacting-After message_server _ s (on_msg-After i w) h)
          (λ i w _. reacting-After error_server _ s (on_err-After i w) h)
          (on_bye_message-After m s h)
          (λ text i v. (send_error_message-Remembers text s h, refused-After text i s h))
  ]

  held-After : (r : Run Udp ClientState) → After r → After (held r)
  held-After (returns c s) h = h
  held-After (exits s) h = h
  held-After undefined h = h

  server-After : (d : RecvFrom) (s : Udp) → Remembers id s → After (process_server_message net d s)
  unfolding process_server_message
  server-After failed s h = h
  server-After (datagram from m) s h = held-After _ (process_received-After m _ h)

  -- One call of the event loop.
  abbrev RemembersAt : Run Udp (Unit {0}) → Type 0
  RemembersAt (returns _ s) = Remembers id s
  RemembersAt (exits s) = Unit
  RemembersAt undefined = Unit

  at-RemembersAt :
      (r : Run Udp ClientState)
      → After r
      → RemembersAt
          (elim r [ returns _ t ↦ returns tt t | exits t ↦ exits t | undefined ↦ undefined ])
  at-RemembersAt (returns _ t) h = h
  at-RemembersAt (exits t) h = tt
  at-RemembersAt undefined h = tt

  pub input-RemembersAt : (i : Input) (s : Udp) → Remembers id s → RemembersAt (input net i s)
  unfolding input resend_last_message
  input-RemembersAt (line m) s h = at-RemembersAt _ (process_user_input-After m s h)
  input-RemembersAt (socket d) s h = at-RemembersAt _ (server-After d s h)
  input-RemembersAt timeout s h = send_message-Remembers _ s h
