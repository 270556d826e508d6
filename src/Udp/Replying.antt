-- ===== src/Udp/Replying.antt =====
-- What a UDP client sends in answer to the datagrams of the server: datagrams of the protocol only.
use ipk.Common.{
  ◌++◌, get_or, ℕ, true, List, [], ◌∷◌, ◌≡◌, inl, inr, refl, Bytes, lit, ltb, length, ◌==◌, if_elim,
  Bool-cases,
}
use ipk.Text.{is_print}
use ipk.Grammar.{all_chars}
use ipk.Udp.Fields.{validate_content}
use ipk.Fsm.{
  Action, any, error_user, nreply_server, reply_server, message_server, error_server, Fsm,
  validate_action,
}
use ipk.Fsm.Login.{Leads}
use ipk.ClientOutput
use ipk.Protocol.{Effect, Network}
use ipk.Udp.Handler.{Udp, print, id_lookup, send_confirmation, send_error_message}
use ipk.Udp.Received.{
  message_id, on_confirmed, on_confirm, on_awaited_reply, on_nreply, on_reply, on_msg, on_err,
  on_bye_message, process_received,
}
use ipk.Udp.Cases.{truncated, truncated_undefined, process_received_cases}
use ipk.Udp.Passes.{Heard, of_message, of_reply, of_nreply, of_error}
use ipk.Udp.Wire.{Silent, SpeaksOf}
use ipk.Udp.SpeakingSends.{
  logged-SpeaksOf, confirmation-SpeaksOf, send_error_message-SpeaksOf, send_bye-SpeaksOf,
}
use ipk.Udp.Speaking.{SpeaksAfter, reacting-SpeaksAfter}

module _ (net : Network) {may : Type 0} {I : Fsm → Type 0} where
  on_confirm-SpeaksAfter :
      (m : Bytes) (s : Udp) → SpeaksOf may I s → SpeaksAfter may I (on_confirm net m s)
  unfolding on_confirm on_confirmed
  on_confirm-SpeaksAfter m s h = if_elim (SpeaksAfter may I) (ltb (length m) 3) tt (
      if_elim (SpeaksAfter may I) (message_id m == s.awaited_conirm_id)
        (if_elim (SpeaksAfter may I) s.awaiting_over h (
          if_elim (SpeaksAfter may I) s.error_sent (send_bye-SpeaksOf net _ h)
            (if_elim (SpeaksAfter may I) s.waiting_for_reply h h)))
        h)

  on_awaited_reply-SpeaksAfter :
      (e : Effect) (id : ℕ) (s : Udp)
      → Silent e
      → SpeaksOf may I s
      → SpeaksAfter may I (on_awaited_reply net e id s)
  unfolding on_awaited_reply
  on_awaited_reply-SpeaksAfter e id s x h = confirmation-SpeaksOf net id _ (logged-SpeaksOf e s x h)

  refused-SpeaksOf :
      (e : Bytes) (id : ℕ) (s : Udp)
      → validate_content e ≡ true
      → SpeaksOf may I s
      → SpeaksOf may I (send_error_message net e (send_confirmation net id s))
  refused-SpeaksOf e id s v h =
      send_error_message-SpeaksOf net e _ v (confirmation-SpeaksOf net id s h)

  on_nreply-SpeaksAfter :
      (id ref : ℕ) (m : Bytes) (r : Action) (s : Udp)
      → SpeaksOf may I s
      → SpeaksAfter may I (on_nreply net id ref m r s)
  unfolding on_nreply validate_content lit all_chars is_print ClientOutput.reply_error
  on_nreply-SpeaksAfter id ref m any s h =
      if_elim (SpeaksAfter may I) (ref == s.awaited_reply_id)
        (on_awaited_reply-SpeaksAfter _ id s tt h) (confirmation-SpeaksOf net id s h)
  on_nreply-SpeaksAfter id ref m error_user s h = refused-SpeaksOf _ id s refl h
  on_nreply-SpeaksAfter id ref m _ s h = tt

  on_reply-SpeaksAfter :
      (id ref : ℕ) (m : Bytes) (r : Action) (s : Udp)
      → SpeaksOf may I s
      → SpeaksAfter may I (on_reply net id ref m r s)
  unfolding on_reply validate_content lit all_chars is_print ClientOutput.reply_success
  on_reply-SpeaksAfter id ref m any s h =
      if_elim (SpeaksAfter may I) (ref == s.awaited_reply_id)
        (on_awaited_reply-SpeaksAfter _ id s tt h) (confirmation-SpeaksOf net id s h)
  on_reply-SpeaksAfter id ref m error_user s h = refused-SpeaksOf _ id s refl h
  on_reply-SpeaksAfter id ref m _ s h = tt

  on_msg-SpeaksAfter :
      (id : ℕ) (w : List Bytes) (r : Action) (s : Udp)
      → SpeaksOf may I s
      → SpeaksAfter may I (on_msg net id w r s)
  unfolding on_msg validate_content lit all_chars is_print ClientOutput.message_from_server
  on_msg-SpeaksAfter id w any s h =
      let c = confirmation-SpeaksOf net id s h in
      if_elim (SpeaksAfter may I) (id_lookup id s.received_ids) c
        (logged-SpeaksOf _ (send_confirmation net id s) tt c)
  on_msg-SpeaksAfter id w _ s h = send_error_message-SpeaksOf net _ s refl h

  on_err-SpeaksAfter :
      (id : ℕ) (w : List Bytes) (r : Action) (s : Udp)
      → SpeaksOf may I s
      → SpeaksAfter may I (on_err net id w r s)
  unfolding on_err validate_content lit all_chars is_print ClientOutput.error_from_server
  on_err-SpeaksAfter id w any s h =
      let t = send_confirmation net id s in
      let c = confirmation-SpeaksOf net id s h in
      if_elim (SpeaksAfter may I) (id_lookup id s.received_ids) (send_bye-SpeaksOf net t c) (
        send_bye-SpeaksOf net
          (print (ClientOutput.error_from_server (get_or w 0 []) (get_or w 1 []))
            (record t { received_ids = t.received_ids ++ id ∷ [] }))
          (logged-SpeaksOf _ t tt c))
  on_err-SpeaksAfter id w _ s h = refused-SpeaksOf _ id s refl h

  on_bye_message-SpeaksAfter :
      (m : Bytes) (s : Udp) → SpeaksOf may I s → SpeaksAfter may I (on_bye_message net m s)
  unfolding on_bye_message validate_content lit all_chars is_print
  on_bye_message-SpeaksAfter m s h =
      if_elim (SpeaksAfter may I) (ltb (length m) 3) (send_error_message-SpeaksOf net _ s refl h)
        (confirmation-SpeaksOf net _ _ h)

  pub process_received-SpeaksAfter :
      (m : Bytes) (s : Udp)
      → ((a : Action) → Heard m a → Leads may I a (validate_action s.fsm a))
      → SpeaksOf may I s
      → SpeaksAfter may I (process_received net m s)
  process_received-SpeaksAfter m s l h = elim (Bool-cases (truncated m)) [
    | inl e ↦ rw (truncated_undefined net m s e) tt
    | inr e ↦
        process_received_cases net (SpeaksAfter may I) m s e (λ _. on_confirm-SpeaksAfter m s h)
          (λ id ref w _.
            reacting-SpeaksAfter net nreply_server _ s (l _ of_nreply)
              (λ r t _. on_nreply-SpeaksAfter id ref w r t) h)
          (λ id ref w _ p.
            reacting-SpeaksAfter net reply_server _ s (l _ (of_reply p))
              (λ r t _. on_reply-SpeaksAfter id ref w r t) h)
          (λ id w _.
            reacting-SpeaksAfter net message_server _ s (l _ of_message)
              (λ r t _. on_msg-SpeaksAfter id w r t) h)
          (λ id w _.
            reacting-SpeaksAfter net error_server _ s (l _ of_error)
              (λ r t _. on_err-SpeaksAfter id w r t) h)
          (on_bye_message-SpeaksAfter m s h)
          (λ text id v.
            (send_error_message-SpeaksOf net text s v h, refused-SpeaksOf text id s v h))
  ]
