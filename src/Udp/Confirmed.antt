-- ===== src/Udp/Confirmed.antt =====
-- What a datagram of the server does to the awaited confirmation.
use ipk.Common.{
  ◌<◌, [], ◌∷◌, ◌++◌, All, All-append, Bool-cases, inl, inr, ℕ, List, refl, arith, Bytes, length,
  lit, ltb, ◌==◌, if_elim,
}
use ipk.Fsm.{Action, any, error_user, nreply_server, reply_server, message_server, error_server}
use ipk.Protocol.{ClientState, Effect, Network, Run, returns, exits, undefined}
use ipk.Udp.Validator.{form_bye_message}
use ipk.Udp.Handler.{
  Udp, send_message, send_confirmation, send_awaited, send_error_message, send_bye,
}
use ipk.Udp.Received.{
  message_id, RecvFrom, failed, datagram, on_confirmed, on_confirm, on_awaited_reply, on_nreply,
  on_reply, on_msg, on_err, on_bye_message, process_received, held, process_server_message,
}
use ipk.Udp.Awaited.{
  Uint16, Awaits, AwaitsAfter, send_message-Awaits, send_error_message-Awaits, reacting-Awaits,
  Same-Awaits,
}
use ipk.Udp.Cases.{truncated, truncated_undefined, process_received_cases}

-- One more id that is known.
known :
    (s : Udp) (id : ℕ)
    → All Uint16 s.received_ids
    → id < 65536
    → All Uint16 (s.received_ids ++ id ∷ [])
known s id h f = All-append Uint16 s.received_ids (id ∷ []) h (f, tt)

module _ (net : Network) where
  confirmation-Awaits : (id : ℕ) (s : Udp) → Awaits s → Awaits (send_confirmation net id s)
  unfolding send_confirmation
  confirmation-Awaits id s h = send_message-Awaits net _ s h

  on_confirmed-Awaits : (s : Udp) → Awaits s → AwaitsAfter (on_confirmed net s)
  unfolding on_confirmed send_bye send_awaited send_message form_bye_message
  on_confirmed-Awaits s h = ground arith

  on_confirm-Awaits : (m : Bytes) (s : Udp) → Awaits s → AwaitsAfter (on_confirm net m s)
  unfolding on_confirm
  on_confirm-Awaits m s h =
      if_elim AwaitsAfter (ltb (length m) 3) tt
        (if_elim AwaitsAfter (message_id m == s.awaited_conirm_id) (on_confirmed-Awaits s h) h)

  on_awaited_reply-Awaits :
      (e : Effect) (id : ℕ) (s : Udp)
      → id < 65536
      → Awaits s
      → AwaitsAfter (on_awaited_reply net e id s)
  unfolding on_awaited_reply send_confirmation send_message
  on_awaited_reply-Awaits e id s f h = ground (arith, known s id)

  refused-Awaits :
      (e : Bytes) (id : ℕ) (s : Udp)
      → Awaits s
      → Awaits (send_error_message net e (send_confirmation net id s))
  refused-Awaits e id s h = send_error_message-Awaits net e _ (confirmation-Awaits id s h)

  on_nreply-Awaits :
      (id ref : ℕ) (m : Bytes) (r : Action) (s : Udp)
      → id < 65536
      → Awaits s
      → AwaitsAfter (on_nreply net id ref m r s)
  unfolding on_nreply
  on_nreply-Awaits id ref m any s f h =
      if_elim AwaitsAfter (ref == s.awaited_reply_id) (on_awaited_reply-Awaits _ id s f h)
        (confirmation-Awaits id s h)
  on_nreply-Awaits id ref m error_user s f h = refused-Awaits _ id s h
  on_nreply-Awaits id ref m _ s f h = tt

  on_reply-Awaits :
      (id ref : ℕ) (m : Bytes) (r : Action) (s : Udp)
      → id < 65536
      → Awaits s
      → AwaitsAfter (on_reply net id ref m r s)
  unfolding on_reply
  on_reply-Awaits id ref m any s f h =
      if_elim AwaitsAfter (ref == s.awaited_reply_id) (on_awaited_reply-Awaits _ id s f h)
        (confirmation-Awaits id s h)
  on_reply-Awaits id ref m error_user s f h = refused-Awaits _ id s h
  on_reply-Awaits id ref m _ s f h = tt

  on_msg-Awaits :
      (id : ℕ) (w : List Bytes) (r : Action) (s : Udp)
      → id < 65536
      → Awaits s
      → AwaitsAfter (on_msg net id w r s)
  unfolding on_msg send_confirmation send_message
  on_msg-Awaits id w any s f h = ground (arith, known s id)
  on_msg-Awaits id w _ s f h = send_error_message-Awaits net _ s h

  on_err-Awaits :
      (id : ℕ) (w : List Bytes) (r : Action) (s : Udp)
      → id < 65536
      → Awaits s
      → AwaitsAfter (on_err net id w r s)
  unfolding on_err send_confirmation send_bye send_awaited send_message form_bye_message
  on_err-Awaits id w any s f h = ground (arith, known s id)
  on_err-Awaits id w _ s f h = refused-Awaits _ id s h

  on_bye_message-Awaits : (m : Bytes) (s : Udp) → Awaits s → AwaitsAfter (on_bye_message net m s)
  unfolding on_bye_message send_confirmation send_message
  on_bye_message-Awaits m s h = ground (
    arith,
    send_error_message-Awaits net (lit "Unexpected bye message format") s h,
    known s (message_id m),
  )

  process_received-Awaits :
      (m : Bytes) (s : Udp) → Awaits s → AwaitsAfter (process_received net m s)
  process_received-Awaits m s h = elim (Bool-cases (truncated m)) [
    | inl e ↦ rw (truncated_undefined net m s e) tt
    | inr e ↦
        process_received_cases net AwaitsAfter m s e (λ _. on_confirm-Awaits m s h)
          (λ id ref w f.
            reacting-Awaits net nreply_server _ s (λ r t. on_nreply-Awaits id ref w r t f) h)
          (λ id ref w f _.
            reacting-Awaits net reply_server _ s (λ r t. on_reply-Awaits id ref w r t f) h)
          (λ id w f. reacting-Awaits net message_server _ s (λ r t. on_msg-Awaits id w r t f) h)
          (λ id w f. reacting-Awaits net error_server _ s (λ r t. on_err-Awaits id w r t f) h)
          (on_bye_message-Awaits m s h)
          (λ error id _. (send_error_message-Awaits net error s h, refused-Awaits error id s h))
  ]

  held-Awaits : (r : Run Udp ClientState) → AwaitsAfter r → AwaitsAfter (held r)
  held-Awaits (returns c s) h = h
  held-Awaits (exits s) h = h
  held-Awaits undefined h = h

  pub process_server_message-Awaits :
      (d : RecvFrom) (s : Udp) → Awaits s → AwaitsAfter (process_server_message net d s)
  unfolding process_server_message
  process_server_message-Awaits failed s h =
      Same-Awaits net s _ (refl, refl, refl, refl, refl, refl) h
  process_server_message-Awaits (datagram from m) s h =
      held-Awaits _
        (process_received-Awaits m _ (Same-Awaits net s _ (refl, refl, refl, refl, refl, refl) h))
