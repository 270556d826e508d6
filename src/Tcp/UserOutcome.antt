-- ===== src/Tcp/UserOutcome.antt =====
-- How the parts of `process_user_input` behind a reaction end.
use ipk.Common.{◌∷◌, false, ◌≡◌, ◌⊎◌, inl, inr, refl, arith, Bytes, if_elim}
use ipk.Grammar.{validate_dname}
use ipk.Fsm.{Action, Fsm, any, warn_client}
use ipk.ClientOutput
use ipk.Protocol.{
  ClientState, ready_for_input, over, Network, Run, returns, exits, undefined, sent, ◌>>◌, return,
}
use ipk.Tcp.Validator.{authorize_validate, join_validate, message_validate, rename}
use ipk.Tcp.Handler.{
  Tcp, bye, print, set_waiting, send_message, print_help, on_auth, on_join, on_rename, on_message,
}
use ipk.Tcp.Outcome.{Settles, sends}

module _ (net : Network) where
  -- What is done after a send, if it does not end the process.
  sent_first :
      (f : Fsm) (m : Bytes) (s : Tcp) (k : Tcp → Run Tcp ClientState)
      → s.fsm ≡ f
      → ((t : Tcp) → t.fsm ≡ f → Settles f (k t))
      → Settles f ((send_message net m >> k) s)
  sent_first f m s k e h = go (send_message net m s) (sends net m s)
    where
      go :
          (r : Run Tcp (Unit {0}))
          → (r ≡ returns tt (record s { log = sent 0 m ∷ s.log })) ⊎ ((t : Tcp) × (r ≡ exits t))
          → Settles f (◌>>◌ {S = Tcp} (λ _. r) k s)
      go (returns _ t) (inl x) = h t (cc)
      go (returns _ t) (inr x) = cc (x.1)
      go (exits t) d = tt
      go undefined (inl x) = cc x
      go undefined (inr x) = cc (x.1)

  pub on_auth-Settles :
      (argument : Bytes) (r : Action) (s : Tcp)
      → (r ≡ any) ⊎ (r ≡ warn_client)
      → Settles s.fsm (on_auth net argument r s)
  unfolding on_auth print set_waiting
  on_auth-Settles argument any s a =
      let first = authorize_validate s.display_name argument in
      let second = authorize_validate first.1 argument in
      if_elim (Settles s.fsm) second.0.1 (sent_first s.fsm first.0.0 _ _ refl (λ t e. e)) refl
  on_auth-Settles argument warn_client s a = refl
  on_auth-Settles argument _ s a = ground arith

  pub on_join-Settles :
      (argument : Bytes) (r : Action) (s : Tcp)
      → (r ≡ any) ⊎ (r ≡ warn_client)
      → Settles s.fsm (on_join net argument r s)
  unfolding on_join print set_waiting
  on_join-Settles argument any s a =
      let response = join_validate s.display_name argument in
      if_elim (Settles s.fsm) response.1 (sent_first s.fsm response.0 _ _ refl (λ t e. e)) refl
  on_join-Settles argument warn_client s a = refl
  on_join-Settles argument _ s a = ground arith

  pub on_message-Settles : (m : Bytes) (r : Action) (s : Tcp) → Settles s.fsm (on_message net m r s)
  unfolding on_message print
  on_message-Settles m any s =
      let response = message_validate s.display_name m in
      if_elim (Settles s.fsm) response.1 (sent_first s.fsm response.0 _ _ refl (λ t e. e)) refl
  on_message-Settles m warn_client s = refl
  on_message-Settles m _ s = refl

  pub on_rename-Settles :
      (argument : Bytes) (s : Tcp)
      → validate_dname argument ≡ false
      → Settles s.fsm (on_rename net argument s)
  unfolding on_rename rename print
  on_rename-Settles argument s n = ground arith

  -- The inputs that are not passed to the machine.
  pub leave-Settles : (s : Tcp) → Settles s.fsm ((send_message net bye >> return over) s)
  leave-Settles s = sent_first s.fsm bye s _ refl (λ t e. tt)

  pub help-Settles : (s : Tcp) → Settles s.fsm ((print_help net >> return ready_for_input) s)
  unfolding print_help
  help-Settles s = refl

  pub print-Settles :
      (text : Bytes) (s : Tcp)
      → Settles s.fsm
          ((print (ClientOutput.internal_error_message text) >> return ready_for_input) s)
  unfolding print
  print-Settles text s = refl
