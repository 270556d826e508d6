-- ===== src/Fsm/Ongoing.antt =====
-- The state machine while the client goes on: which reactions the handlers have to expect. A client that
-- passes BYE_SERVER to it, as TCP's does, ends then.
use ipk.Common.{List, [], ◌∷◌, Option, none, some, ◌≡◌, ◌⊎◌, inl, inr, refl}
use ipk.Fsm.{
  Action, authorize_user, join_user, message_user, message_server, bye_user, bye_server, error_user,
  error_server, reply_server, nreply_server, any, warn_client, State, start, auth, opened, error,
  end, Fsm, validate_action,
}
use ipk.Fsm.Invariant.{fsm}

-- START, AUTH and OPEN.
pub data Active : State → Type 0 where
  in_start : Active start
  in_auth : Active auth
  in_opened : Active opened

-- END is never left with nothing expected.
pub data Ongoing : State → Option State → List Action → Type 0 where
  unused : Ongoing start none []
  at : {s : State} {p : Option State} → Active s → Ongoing s p (any ∷ [])
  asked : Ongoing auth (some auth) (reply_server ∷ nreply_server ∷ error_server ∷ [])
  denied : Ongoing auth (some auth) (authorize_user ∷ [])
  failed : {p : State} → Active p → Ongoing error (some p) (bye_user ∷ [])
  ended : {p : State} → Active p → Ongoing end (some p) (bye_user ∷ [])

ruleset ongoing = (unused, at, asked, denied, failed, ended, in_start, in_auth, in_opened)

abbrev pub OngoingOf : Fsm → Type 0
OngoingOf f = Ongoing f.current_state f.previous_state f.expected_action

-- The actions of the user that the handlers pass.
pub data FromUser : Action → Type 0 where
  by_authorize : FromUser authorize_user
  by_join : FromUser join_user
  by_message : FromUser message_user

-- The actions of the server that the handlers pass, but for BYE_SERVER.
pub data ByServer : Action → Type 0 where
  message : ByServer message_server
  reply : ByServer reply_server
  nreply : ByServer nreply_server
  failure : ByServer error_server

abbrev pub ServerKept : Option (Action × Fsm) → Type 0
ServerKept (some (any, g)) = OngoingOf g
ServerKept (some (error_user, g)) = OngoingOf g
ServerKept _ = ⊥

abbrev pub UserKept : Option (Action × Fsm) → Type 0
UserKept (some (any, g)) = OngoingOf g
UserKept (some (warn_client, g)) = OngoingOf g
UserKept _ = ⊥

pub ServerKept-cases :
    (r : Action) (g : Fsm) → ServerKept (some (r, g)) → OngoingOf g × ((r ≡ any) ⊎ (r ≡ error_user))
ServerKept-cases any g h = (h, inl refl)
ServerKept-cases error_user g h = (h, inr refl)
ServerKept-cases _ g h = absurd h

pub UserKept-cases :
    (r : Action) (g : Fsm) → UserKept (some (r, g)) → OngoingOf g × ((r ≡ any) ⊎ (r ≡ warn_client))
UserKept-cases any g h = (h, inl refl)
UserKept-cases warn_client g h = (h, inr refl)
UserKept-cases _ g h = absurd h

pub server_keeps :
    {s : State} {p : Option State} {e : List Action} {a : Action}
    → Ongoing s p e
    → ByServer a
    → ServerKept (validate_action (fsm s p e) a)
unfolding validate_action
server_keeps unused message = search ongoing
server_keeps unused _ = search ongoing
server_keeps (at in_start) message = search ongoing
server_keeps (at in_start) _ = search ongoing
server_keeps (at in_auth) message = search ongoing
server_keeps (at in_auth) _ = search ongoing
server_keeps (at in_opened) message = search ongoing
server_keeps (at in_opened) _ = search ongoing
server_keeps asked message = search ongoing
server_keeps asked _ = search ongoing
server_keeps denied message = search ongoing
server_keeps denied _ = search ongoing
server_keeps (failed a) message = search ongoing
server_keeps (failed a) _ = search ongoing
server_keeps (ended a) message = search ongoing
server_keeps (ended a) _ = search ongoing

pub user_keeps :
    {s : State} {p : Option State} {e : List Action} {a : Action}
    → Ongoing s p e
    → FromUser a
    → UserKept (validate_action (fsm s p e) a)
unfolding validate_action
user_keeps unused by_authorize = search ongoing
user_keeps unused _ = search ongoing
user_keeps (at in_start) by_authorize = search ongoing
user_keeps (at in_start) _ = search ongoing
user_keeps (at in_auth) by_authorize = search ongoing
user_keeps (at in_auth) _ = search ongoing
user_keeps (at in_opened) by_authorize = search ongoing
user_keeps (at in_opened) _ = search ongoing
user_keeps asked by_authorize = search ongoing
user_keeps asked _ = search ongoing
user_keeps denied by_authorize = search ongoing
user_keeps denied _ = search ongoing
user_keeps (failed a) by_authorize = search ongoing
user_keeps (failed a) _ = search ongoing
user_keeps (ended a) by_authorize = search ongoing
user_keeps (ended a) _ = search ongoing

-- An action that is allowed, or answered by an error.
abbrev pub Answered : Option (Action × Fsm) → Type 0
Answered (some (any, g)) = Unit
Answered (some (error_user, g)) = Unit
Answered _ = ⊥

pub Answered-cases : (r : Action) (g : Fsm) → Answered (some (r, g)) → (r ≡ any) ⊎ (r ≡ error_user)
Answered-cases any g h = inl refl
Answered-cases error_user g h = inr refl
Answered-cases _ g h = absurd h

pub bye_server-Answered :
    {s : State} {p : Option State} {e : List Action}
    → Ongoing s p e
    → Answered (validate_action (fsm s p e) bye_server)
unfolding validate_action
bye_server-Answered unused = tt
bye_server-Answered (at in_start) = tt
bye_server-Answered (at in_auth) = tt
bye_server-Answered (at in_opened) = tt
bye_server-Answered asked = tt
bye_server-Answered denied = tt
bye_server-Answered (failed a) = tt
bye_server-Answered (ended a) = tt

pub error_server-Answered :
    {s : State} {p : Option State} {e : List Action}
    → Ongoing s p e
    → Answered (validate_action (fsm s p e) error_server)
error_server-Answered {s} {p} {e} h =
    go (validate_action (fsm s p e) error_server) (server_keeps h failure)
  where
    go : (o : Option (Action × Fsm)) → ServerKept o → Answered o
    go (some (any, g)) x = tt
    go (some (error_user, g)) x = tt
    go (some (_, g)) x = absurd x
    go none x = absurd x
