-- ===== src/Udp/Safety.antt =====
-- What each method of the UDP handler makes of the machine of a client that goes on.
use ipk.Common.{false, ◌≡◌, ◌⊎◌, sym, ◌∙◌, arith, Bytes}
use mathlib.Core.Path.{subst}
use ipk.Fsm.{Action, Fsm, any, error_user, warn_client}
use ipk.Fsm.Ongoing.{
  OngoingOf, ByServer, message, reply, nreply, failure, ServerKept, UserKept, ServerKept-cases,
  UserKept-cases, server_keeps, user_keeps, FromUser, by_authorize, by_join, by_message,
}
use ipk.Protocol.{ClientState, waiting_for_confirmation, Network, Run, returns, exits, undefined}
use ipk.Udp.Handler.{Udp, reacting, send_error_message, process_user_input}
use ipk.Udp.Received.{held, process_received}
use ipk.Udp.Cases.{
  truncated, renames, reacting_cases, process_user_input_cases, process_received_cases,
}
use ipk.Udp.Outcome.{
  Settles, send_confirmation-fsm, send_error_message-fsm, leave-Settles, on_auth-Settles,
  on_join-Settles, on_message-Settles, on_rename-Settles, on_confirm-Settles, on_nreply-Settles,
  on_reply-Settles, on_msg-Settles, on_err-Settles, on_bye_message-Settles,
}

-- The method returns, and the machine is one of a client that goes on.
abbrev pub GoesOn : Run Udp ClientState → Type 0
GoesOn (returns _ s) = OngoingOf s.fsm
GoesOn (exits s) = ⊥
GoesOn undefined = ⊥

Settles-GoesOn : (f : Fsm) (r : Run Udp ClientState) → OngoingOf f → Settles f r → GoesOn r
Settles-GoesOn f (returns _ s) g h = subst OngoingOf (sym h) g
Settles-GoesOn f (exits s) g h = h
Settles-GoesOn f undefined g h = h

module _ (net : Network) (s : Udp) (going : OngoingOf s.fsm) where
  same : (r : Run Udp ClientState) → Settles s.fsm r → GoesOn r
  same r h = Settles-GoesOn s.fsm r going h

  -- What follows a reaction to an action of the server.
  answering :
      (a : Action) (rest : Action → Udp → Run Udp ClientState)
      → ByServer a
      → ((r : Action) (t : Udp) → (r ≡ any) ⊎ (r ≡ error_user) → Settles t.fsm (rest r t))
      → GoesOn (reacting a rest s)
  answering a rest b k =
      reacting_cases GoesOn ServerKept a rest s (server_keeps going b) (λ x. absurd x)
        (λ r g x.
          let (h, c) = ServerKept-cases r g x in
          Settles-GoesOn g _ h (k r (record s { fsm = g }) c))

  -- What follows a reaction to an action of the user.
  asking :
      (a : Action) (rest : Action → Udp → Run Udp ClientState)
      → FromUser a
      → ((r : Action) (t : Udp) → (r ≡ any) ⊎ (r ≡ warn_client) → Settles t.fsm (rest r t))
      → GoesOn (reacting a rest s)
  asking a rest f k =
      reacting_cases GoesOn UserKept a rest s (user_keeps going f) (λ x. absurd x)
        (λ r g x.
          let (h, c) = UserKept-cases r g x in Settles-GoesOn g _ h (k r (record s { fsm = g }) c))

  pub process_user_input-GoesOn :
      (m : Bytes) → renames m s.error_while_waiting ≡ false → GoesOn (process_user_input net m s)
  process_user_input-GoesOn m n =
      process_user_input_cases net GoesOn m s (same _ (leave-Settles net s))
        (λ _.
          same (returns waiting_for_confirmation (send_error_message net s.error_message s))
            (send_error_message-fsm net s.error_message s))
        (λ _. asking _ _ by_authorize (on_auth-Settles net _))
        (asking _ _ by_join (on_join-Settles net _))
        (λ w e. same _ (on_rename-Settles net _ s (ground (arith, n, w, e)))) going going
        (asking _ _ by_message (on_message-Settles net m))

  pub process_received-GoesOn :
      (m : Bytes) → truncated m ≡ false → GoesOn (process_received net m s)
  process_received-GoesOn m n =
      process_received_cases net GoesOn m s n (λ h. same _ (on_confirm-Settles net m s h))
        (λ id ref w _. answering _ _ nreply (on_nreply-Settles net id ref w))
        (λ id ref w _ _. answering _ _ reply (on_reply-Settles net id ref w))
        (λ id w _. answering _ _ message (λ r t c. on_msg-Settles net id w r t))
        (λ id w _. answering _ _ failure (λ r t c. on_err-Settles net id w r t))
        (same _ (on_bye_message-Settles net m s))
        (λ e id _. (
          same (returns waiting_for_confirmation (send_error_message net e s))
              (send_error_message-fsm net e s),
          same (returns waiting_for_confirmation (send_error_message net e _))
              (send_error_message-fsm net e _ ∙ send_confirmation-fsm net id s),
        ))

pub held-GoesOn : (r : Run Udp ClientState) → GoesOn r → GoesOn (held r)
held-GoesOn (returns c t) h = h
held-GoesOn (exits t) h = h
held-GoesOn undefined h = h
