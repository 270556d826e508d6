-- ===== src/Tcp/GoesOn.antt =====
-- What each method of the TCP handler makes of the machine of a client that goes on.
use ipk.Common.{false, ◌&&◌, Option, some, ◌≡◌, ◌⊎◌, inl, refl, sym, arith, Bytes}
use mathlib.Core.Path.{subst}
use ipk.Fsm.{Action, Fsm, any, error_user, warn_client, validate_action}
use ipk.Fsm.Ongoing.{
  OngoingOf, ByServer, message, reply, nreply, FromUser, by_authorize, by_join, by_message,
  ServerKept, UserKept, UserKept-cases, server_keeps, user_keeps, Answered, Answered-cases,
  error_server-Answered, bye_server-Answered,
}
use ipk.Protocol.{ClientState, over, Effect, Network, Run, returns, exits, undefined, ◌>>=◌}
use ipk.Tcp.Handler.{Tcp, react, process_user_input}
use ipk.Tcp.Received.{on_reply, process_received}
use ipk.Tcp.Outcome.{
  Settles, Ends, lacks_content, on_server_message-Settles, on_reply-Settles, on_error-Ends,
  on_bye-Ends, on_unknown-Ends, on_server_message_refused, on_reply_refused,
}
use ipk.Tcp.UserOutcome.{
  on_auth-Settles, on_join-Settles, on_message-Settles, on_rename-Settles, leave-Settles,
  help-Settles, print-Settles,
}
use ipk.Tcp.Cases.{
  allows, ill_replied, renames, reacting_cases, process_received_cases, process_user_input_cases,
}

-- If the client goes on, its machine is one of these.
abbrev pub GoesOn : Run Tcp ClientState → Type 0
GoesOn (returns over s) = Unit
GoesOn (returns _ s) = OngoingOf s.fsm
GoesOn (exits s) = Unit
GoesOn undefined = ⊥

Settles-GoesOn : (f : Fsm) (r : Run Tcp ClientState) → OngoingOf f → Settles f r → GoesOn r
Settles-GoesOn f (returns over s) g h = tt
Settles-GoesOn f (returns _ s) g h = subst OngoingOf (sym h) g
Settles-GoesOn f (exits s) g h = tt
Settles-GoesOn f undefined g h = h

Ends-GoesOn : (r : Run Tcp ClientState) → Ends r → GoesOn r
Ends-GoesOn (returns over s) h = tt
Ends-GoesOn (returns _ s) h = absurd h
Ends-GoesOn (exits s) h = tt
Ends-GoesOn undefined h = h

module _ (net : Network) (s : Tcp) (going : OngoingOf s.fsm) where
  -- What follows a reaction to a message or a reply.
  answering :
      (a : Action) (rest : Action → Tcp → Run Tcp ClientState) (P : Option (Action × Fsm) → Type 0)
      → ByServer a
      → P (validate_action s.fsm a)
      → ((g : Fsm) → P (some (any, g)) → (t : Tcp) → Settles t.fsm (rest any t))
      → ((t : Tcp) → Ends (rest error_user t))
      → GoesOn ((react a >>= rest) s)
  answering a rest P b p k l =
      reacting_cases GoesOn (λ o. ServerKept o × P o) a rest s (server_keeps going b, p)
        (λ x. absurd x.0) go
    where
      go :
          (r : Action) (g : Fsm)
          → ServerKept (some (r, g)) × P (some (r, g))
          → GoesOn (rest r (record s { fsm = g }))
      go any g x = Settles-GoesOn g _ x.0 (k g x.1 (record s { fsm = g }))
      go error_user g x = Ends-GoesOn _ (l (record s { fsm = g }))
      go _ g x = absurd x.0

  replying :
      (a : Action) (shown : Bytes → Effect) (m : Bytes)
      → ByServer a
      → lacks_content m && allows (validate_action s.fsm a) ≡ false
      → GoesOn ((react a >>= on_reply net shown m) s)
  replying a shown m b n =
      answering a (on_reply net shown m) (λ o. lacks_content m && allows o ≡ false) b n
        (λ g x t. on_reply-Settles net shown m any t (inl refl) (ground (arith, x)))
        (on_reply_refused net shown m)

  -- What follows a reaction after which the client ends.
  ending :
      (a : Action) (rest : Action → Tcp → Run Tcp ClientState)
      → Answered (validate_action s.fsm a)
      → ((r : Action) (t : Tcp) → (r ≡ any) ⊎ (r ≡ error_user) → Ends (rest r t))
      → GoesOn ((react a >>= rest) s)
  ending a rest h k =
      reacting_cases GoesOn Answered a rest s h (λ x. absurd x)
        (λ r g x. Ends-GoesOn _ (k r _ (Answered-cases r g x)))

  -- What follows a reaction to an action of the user.
  asking :
      (a : Action) (rest : Action → Tcp → Run Tcp ClientState)
      → FromUser a
      → ((r : Action) (t : Tcp) → (r ≡ any) ⊎ (r ≡ warn_client) → Settles t.fsm (rest r t))
      → GoesOn ((react a >>= rest) s)
  asking a rest f k =
      reacting_cases GoesOn UserKept a rest s (user_keeps going f) (λ x. absurd x)
        (λ r g x.
          let (h, c) = UserKept-cases r g x in Settles-GoesOn g _ h (k r (record s { fsm = g }) c))

  pub process_received-GoesOn :
      (m : Bytes) → ill_replied m s.fsm ≡ false → GoesOn (process_received net m s)
  process_received-GoesOn m n =
      process_received_cases net GoesOn m s n
        (answering _ _ (λ o. Unit) message tt (λ g x. on_server_message-Settles net m any)
          (on_server_message_refused net m))
        (λ _ _. replying _ _ m reply) (replying _ _ m nreply)
        (ending _ _ (error_server-Answered going) (on_error-Ends net m))
        (ending _ _ (bye_server-Answered going) (on_bye-Ends net))
        (Ends-GoesOn _ (on_unknown-Ends net s))

  pub process_user_input-GoesOn :
      (m : Bytes) → renames m ≡ false → GoesOn (process_user_input net m s)
  process_user_input-GoesOn m n =
      process_user_input_cases net GoesOn m s (settled _ (leave-Settles net s))
        (λ _. asking _ _ by_authorize (on_auth-Settles net _))
        (asking _ _ by_join (on_join-Settles net _))
        (λ e. settled _ (on_rename-Settles net _ s (ground (arith, n, e))))
        (settled _ (help-Settles net s)) (settled _ (print-Settles net _ s))
        (asking _ _ by_message (λ r t a. on_message-Settles net m r t))
    where
      settled : (r : Run Tcp ClientState) → Settles s.fsm r → GoesOn r
      settled r h = Settles-GoesOn s.fsm r going h
