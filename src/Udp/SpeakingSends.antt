-- ===== src/Udp/SpeakingSends.antt =====
-- What the UDP handler's methods send, and the ids of that.
use ipk.Common.{refl, ℕ, true, ◌∷◌, ◌≡◌, inr, Bytes, lit, if_elim}
use ipk.Udp.Fields.{validate_content}
use ipk.Fsm.{Fsm}
use ipk.ClientOutput
use ipk.Protocol.{Effect, sent, cerr, Network}
use ipk.Udp.Validator.{form_bye_message, form_error_message}
use ipk.Udp.Handler.{
  next_id, Udp, print, send_message, send_confirmation, send_awaited, send_error_message, send_bye,
}
use ipk.Udp.Fields.Same.{validate_content-IsContent}
use ipk.Udp.Wire.{
  RequestOf, confirm, request, bye, error, SendableOf, SendsWireOf, Silent, SpeaksOf,
  Request-Numbered,
}
use ipk.Udp.Sequence.{Aside, Sequenced, Sequenced-lt, aside, fresh}

Silent-sends : (may : Type 0) (e : Effect) → Silent e → SendsWireOf may e × Aside e
Silent-sends may (sent address m) h = absurd h
Silent-sends may _ h = (tt, tt)

module _ {may : Type 0} {I : Fsm → Type 0} where
  pub logged-SpeaksOf :
      (e : Effect) (s : Udp)
      → Silent e
      → SpeaksOf may I s
      → SpeaksOf may I (record s { log = e ∷ s.log })
  logged-SpeaksOf e s x h = record {
    is_named = h.is_named;
    log_sends = ((Silent-sends may e x).0, h.log_sends);
    last_sends = h.last_sends;
    error_valid = h.error_valid;
    in_order = aside (Silent-sends may e x).1 h.in_order;
    machine = h.machine;
  }

  pub complaint-SpeaksOf :
      (text : Bytes) (s : Udp)
      → SpeaksOf may I s
      → SpeaksOf may I (print (ClientOutput.internal_error_message text) s)
  unfolding ClientOutput.internal_error_message
  complaint-SpeaksOf text s h = logged-SpeaksOf (cerr _) s tt h

module _ (net : Network) {may : Type 0} {I : Fsm → Type 0} where
  -- What is sent, and perhaps the complaint.
  pub send_message-SpeaksOf :
      (m : Bytes) (s : Udp)
      → SendableOf may m
      → Sequenced s.renamer3000 s.last_message (sent s.server_address m ∷ s.log)
      → SpeaksOf may I s
      → SpeaksOf may I (send_message net m s)
  unfolding send_message
  send_message-SpeaksOf m s w o h =
      let l : SpeaksOf may I (record s { log = sent s.server_address m ∷ s.log }) = record {
        is_named = h.is_named;
        log_sends = (w, h.log_sends);
        last_sends = h.last_sends;
        error_valid = h.error_valid;
        in_order = o;
        machine = h.machine;
      } in
      if_elim (SpeaksOf may I) (net s.log m) l (
        complaint-SpeaksOf (lit "Error while sending the message")
          (record s { log = sent s.server_address m ∷ s.log }) l)

  pub confirmation-SpeaksOf :
      (id : ℕ) (s : Udp) → SpeaksOf may I s → SpeaksOf may I (send_confirmation net id s)
  unfolding send_confirmation
  confirmation-SpeaksOf id s h =
      send_message-SpeaksOf _ s (inr (confirm id)) (aside refl h.in_order) h

  -- A new message: the next id and the last message are set behind the send.
  pub send_awaited-SpeaksOf :
      (m : Bytes) (s : Udp)
      → RequestOf may s.renamer3000 m
      → SpeaksOf may I s
      → SpeaksOf may I (send_awaited net m s)
  unfolding send_awaited send_message
  send_awaited-SpeaksOf m s w h =
      let u : Udp = record s {
        log = sent s.server_address m ∷ s.log;
        last_message = m;
        renamer3000 = next_id s.renamer3000;
      } in
      let t : SpeaksOf may I u = record {
        is_named = h.is_named;
        log_sends = (inr (request w), h.log_sends);
        last_sends = inr (request w);
        error_valid = h.error_valid;
        in_order = fresh _ m (Request-Numbered (Sequenced-lt h.in_order) w) h.in_order;
        machine = h.machine;
      } in
      if_elim
        (λ v. SpeaksOf may I (record v {
          awaited_conirm_id = s.renamer3000;
          last_message = m;
          renamer3000 = next_id s.renamer3000;
        }))
        (net s.log m) t (complaint-SpeaksOf (lit "Error while sending the message") u t)

  pub send_error_message-SpeaksOf :
      (e : Bytes) (s : Udp)
      → validate_content e ≡ true
      → SpeaksOf may I s
      → SpeaksOf may I (send_error_message net e s)
  unfolding send_error_message form_error_message
  send_error_message-SpeaksOf e s v h =
      if_elim (SpeaksOf may I) s.waiting_for_confirmation
        (record {
          is_named = h.is_named;
          log_sends = h.log_sends;
          last_sends = h.last_sends;
          error_valid = λ _. v;
          in_order = h.in_order;
          machine = h.machine;
        })
        (send_awaited-SpeaksOf _ s
          (error s.renamer3000 s.display_name e h.is_named (validate_content-IsContent e v)) h)

  pub send_bye-SpeaksOf : (s : Udp) → SpeaksOf may I s → SpeaksOf may I (send_bye net s)
  unfolding send_bye form_bye_message
  send_bye-SpeaksOf s h = send_awaited-SpeaksOf _ s (bye s.renamer3000) h
