-- ===== src/Udp/Awaited.antt =====
-- Which message is sent again, and whose confirmation is awaited: what the user's input does to both.
use ipk.Common.{All, ℕ, ◌<◌, true, ◌≡◌, refl, arith, Bytes}
use ipk.Fsm.{Action, authorize_user, join_user, message_user, any}
use ipk.Protocol.{ClientState, Network, Run, returns, exits, undefined}
use ipk.Udp.Validator.{
  header, form_bye_message, form_error_message, authorize_validate, join_validate, message_validate,
}
use ipk.Udp.Handler.{
  Udp, reacting, send_message, send_awaited, send_error_message, send_bye, on_auth, on_join,
  on_message, on_rename, leave, process_user_input,
}
use ipk.Udp.Received.{message_id}
use ipk.Udp.Cases.{reacting_cases, process_user_input_cases}

abbrev pub Uint16 : ℕ → Type 0
Uint16 n = n < 65536

-- Ids are uint16, and while a confirmation is awaited, the last message carries the awaited id.
pub record Awaits (s : Udp) : Type 0 where
  pub id_fits : s.renamer3000 < 65536
  pub confirm_fits : s.awaited_conirm_id < 65536
  pub reply_fits : s.awaited_reply_id < 65536
  pub received_fit : All Uint16 s.received_ids
  pub last_is_awaited :
      s.waiting_for_confirmation ≡ true → message_id s.last_message ≡ s.awaited_conirm_id

abbrev pub AwaitsAfter : Run Udp ClientState → Type 0
AwaitsAfter (returns _ s) = Awaits s
AwaitsAfter (exits s) = Awaits s
AwaitsAfter undefined = Unit

pub message_id-header :
    (code id : ℕ) (rest : Bytes) → id < 65536 → message_id (header code id rest) ≡ id
message_id-header code id rest h = omega arith

module _ (net : Network) where
  pub send_message-Awaits : (m : Bytes) (s : Udp) → Awaits s → Awaits (send_message net m s)
  unfolding send_message
  send_message-Awaits m s h = ground arith

  pub send_error_message-Awaits :
      (e : Bytes) (s : Udp) → Awaits s → Awaits (send_error_message net e s)
  unfolding send_error_message send_awaited send_message form_error_message
  send_error_message-Awaits e s h = ground (arith, message_id-header 0xfe s.renamer3000)

  pub send_bye-Awaits : (s : Udp) → Awaits s → Awaits (send_bye net s)
  unfolding send_bye send_awaited send_message form_bye_message
  send_bye-Awaits s h = ground arith

  on_auth-Awaits :
      (argument : Bytes) (r : Action) (s : Udp) → Awaits s → AwaitsAfter (on_auth net argument r s)
  unfolding on_auth send_awaited send_message authorize_validate
  on_auth-Awaits argument any s h = ground arith
  on_auth-Awaits argument _ s h = ground arith

  on_join-Awaits :
      (argument : Bytes) (r : Action) (s : Udp) → Awaits s → AwaitsAfter (on_join net argument r s)
  unfolding on_join send_awaited send_message join_validate
  on_join-Awaits argument any s h = ground arith
  on_join-Awaits argument _ s h = ground arith

  on_message-Awaits :
      (m : Bytes) (r : Action) (s : Udp) → Awaits s → AwaitsAfter (on_message net m r s)
  unfolding on_message send_awaited send_message message_validate
  on_message-Awaits m any s h = ground arith
  on_message-Awaits m _ s h = ground arith

  on_rename-Awaits :
      (argument : Bytes) (s : Udp) → Awaits s → AwaitsAfter (on_rename net argument s)
  unfolding on_rename
  on_rename-Awaits argument s h = ground arith

  leave-Awaits : (s : Udp) → Awaits s → AwaitsAfter (leave net s)
  unfolding leave send_bye send_awaited send_message form_bye_message
  leave-Awaits s h = ground arith

  -- What follows a reaction keeps the property if it does so in every state.
  pub reacting-Awaits :
      (a : Action) (rest : Action → Udp → Run Udp ClientState) (s : Udp)
      → ((r : Action) (t : Udp) → Awaits t → AwaitsAfter (rest r t))
      → Awaits s
      → AwaitsAfter (reacting a rest s)
  reacting-Awaits a rest s k h =
      reacting_cases AwaitsAfter (λ o. Unit) a rest s tt (λ x. tt)
        (λ r g x. k r _ (record {
          id_fits = h.id_fits;
          confirm_fits = h.confirm_fits;
          reply_fits = h.reply_fits;
          received_fit = h.received_fit;
          last_is_awaited = h.last_is_awaited;
        }))

  -- Fields that the property does not read may change.
  abbrev Same : Udp → Udp → Type 0
  Same s t =
      (t.renamer3000 ≡ s.renamer3000)
      × (t.waiting_for_confirmation ≡ s.waiting_for_confirmation)
      × (t.last_message ≡ s.last_message)
      × (t.awaited_conirm_id ≡ s.awaited_conirm_id)
      × (t.awaited_reply_id ≡ s.awaited_reply_id)
      × (t.received_ids ≡ s.received_ids)

  pub Same-Awaits : (s t : Udp) → Same s t → Awaits s → Awaits t
  Same-Awaits s t e h = ground arith

  pub process_user_input-Awaits :
      (m : Bytes) (s : Udp) → Awaits s → AwaitsAfter (process_user_input net m s)
  process_user_input-Awaits m s h =
      process_user_input_cases net AwaitsAfter m s (leave-Awaits s h)
        (λ _. send_error_message-Awaits s.error_message s h)
        (λ _. reacting-Awaits authorize_user _ s (on_auth-Awaits _) h)
        (reacting-Awaits join_user _ s (on_join-Awaits _) h) (λ _ _. on_rename-Awaits _ s h)
        (Same-Awaits s _ (refl, refl, refl, refl, refl, refl) h)
        (Same-Awaits s _ (refl, refl, refl, refl, refl, refl) h)
        (reacting-Awaits message_user _ s (on_message-Awaits m) h)
