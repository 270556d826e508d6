-- ===== src/Udp/Outcome.antt =====
-- What the parts of the UDP handler's methods leave of the state machine.
use ipk.Common.{ℕ, false, List, ◌≡◌, ◌⊎◌, refl, arith, Bytes, lit, ltb, length}
use ipk.Udp.Fields.{validate_dname}
use ipk.Fsm.{Action, Fsm, any, error_user, warn_client}
use ipk.Protocol.{ClientState, Network, Run, returns, exits, undefined}
use ipk.Udp.Validator.{rename}
use ipk.Udp.Handler.{
  Udp, send_message, send_confirmation, send_awaited, send_error_message, send_bye, leave, on_auth,
  on_join, on_rename, on_message,
}
use ipk.Udp.Received.{
  on_confirmed, on_confirm, on_awaited_reply, on_nreply, on_reply, on_msg, on_err, on_bye_message,
}

-- The method returns, and its machine is this one; UDP's methods never exit.
abbrev pub Settles : Fsm → Run Udp ClientState → Type 0
Settles f (returns _ s) = s.fsm ≡ f
Settles f (exits s) = ⊥
Settles f undefined = ⊥

module _ (net : Network) where
  pub send_message-fsm : (m : Bytes) (s : Udp) → (send_message net m s).fsm ≡ s.fsm
  unfolding send_message
  send_message-fsm m s = ground arith

  pub send_confirmation-fsm : (id : ℕ) (s : Udp) → (send_confirmation net id s).fsm ≡ s.fsm
  unfolding send_confirmation
  send_confirmation-fsm id s = send_message-fsm _ s

  pub send_error_message-fsm : (e : Bytes) (s : Udp) → (send_error_message net e s).fsm ≡ s.fsm
  unfolding send_error_message send_awaited send_message
  send_error_message-fsm e s = ground arith

  pub leave-Settles : (s : Udp) → Settles s.fsm (leave net s)
  unfolding leave send_bye send_awaited
  leave-Settles s = send_message-fsm _ s

  pub on_auth-Settles :
      (argument : Bytes) (r : Action) (s : Udp)
      → (r ≡ any) ⊎ (r ≡ warn_client)
      → Settles s.fsm (on_auth net argument r s)
  unfolding on_auth send_awaited send_message
  on_auth-Settles argument any s a = ground arith
  on_auth-Settles argument warn_client s a = refl
  on_auth-Settles argument _ s a = ground arith

  pub on_join-Settles :
      (argument : Bytes) (r : Action) (s : Udp)
      → (r ≡ any) ⊎ (r ≡ warn_client)
      → Settles s.fsm (on_join net argument r s)
  unfolding on_join send_awaited send_message
  on_join-Settles argument any s a = ground arith
  on_join-Settles argument warn_client s a = refl
  on_join-Settles argument _ s a = ground arith

  pub on_message-Settles :
      (m : Bytes) (r : Action) (s : Udp)
      → (r ≡ any) ⊎ (r ≡ warn_client)
      → Settles s.fsm (on_message net m r s)
  unfolding on_message send_awaited send_message
  on_message-Settles m any s a = ground arith
  on_message-Settles m warn_client s a = refl
  on_message-Settles m _ s a = ground arith

  pub on_rename-Settles :
      (argument : Bytes) (s : Udp)
      → validate_dname argument ≡ false
      → Settles s.fsm (on_rename net argument s)
  unfolding on_rename rename
  on_rename-Settles argument s n = ground arith

  pub on_confirm-Settles :
      (m : Bytes) (s : Udp) → ltb (length m) 3 ≡ false → Settles s.fsm (on_confirm net m s)
  unfolding on_confirm on_confirmed send_bye send_awaited send_message
  on_confirm-Settles m s h = ground arith

  pub on_nreply-Settles :
      (id ref : ℕ) (response : Bytes) (r : Action) (s : Udp)
      → (r ≡ any) ⊎ (r ≡ error_user)
      → Settles s.fsm (on_nreply net id ref response r s)
  unfolding on_nreply on_awaited_reply send_confirmation send_error_message send_awaited
      send_message
  on_nreply-Settles id ref response any s a = ground arith
  on_nreply-Settles id ref response error_user s a = ground arith
  on_nreply-Settles id ref response _ s a = ground arith

  pub on_reply-Settles :
      (id ref : ℕ) (response : Bytes) (r : Action) (s : Udp)
      → (r ≡ any) ⊎ (r ≡ error_user)
      → Settles s.fsm (on_reply net id ref response r s)
  unfolding on_reply on_awaited_reply send_confirmation send_error_message send_awaited send_message
  on_reply-Settles id ref response any s a = ground arith
  on_reply-Settles id ref response error_user s a = ground arith
  on_reply-Settles id ref response _ s a = ground arith

  pub on_msg-Settles :
      (id : ℕ) (words : List Bytes) (r : Action) (s : Udp) → Settles s.fsm (on_msg net id words r s)
  unfolding on_msg send_confirmation send_message
  on_msg-Settles id words any s = ground arith
  on_msg-Settles id words _ s = send_error_message-fsm _ s

  pub on_err-Settles :
      (id : ℕ) (words : List Bytes) (r : Action) (s : Udp) → Settles s.fsm (on_err net id words r s)
  unfolding on_err send_bye send_awaited send_confirmation send_message
  on_err-Settles id words any s = ground arith
  on_err-Settles id words _ s = ground (
    arith,
    send_error_message-fsm (lit "Invalid state for error message") (send_confirmation net id s),
    send_confirmation-fsm id s,
  )

  pub on_bye_message-Settles : (m : Bytes) (s : Udp) → Settles s.fsm (on_bye_message net m s)
  unfolding on_bye_message send_confirmation send_error_message send_awaited send_message
  on_bye_message-Settles m s = ground arith
