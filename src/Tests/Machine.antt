-- ===== src/Tests/Machine.antt =====
-- FSMValidate at concrete actions.
use ipk.Common.{List, [], ◌∷◌, some, ◌≡◌, refl}
use ipk.Fsm.{
  Action, authorize_user, message_user, reply_server, error_server, any, warn_client, start, auth,
  opened, Fsm, initial, validate_action,
}
use ipk.Fsm.Invariant.{by_message, validate_all, fsm}
use ipk.Fsm.Diagram.{seen, verdict, validate_action-verdict}
use ipk.Fsm.Ongoing.{in_opened}
use ipk.Fsm.Sessions.{second_authorize_stays_auth, error_server_reopens}

abbrev login : List Action
login = authorize_user ∷ reply_server ∷ []

abbrev logged_in : Fsm
logged_in = fsm opened (some auth) (any ∷ [])

login-runs : validate_all initial login ≡ some (any ∷ any ∷ [], logged_in)
unfolding validate_all validate_action initial
login-runs = refl

abbrev chatting : Fsm
chatting = fsm opened (some opened) (any ∷ [])

message_allowed : validate_action logged_in message_user ≡ some (any, chatting)
unfolding validate_action
message_allowed = refl

second_authorize_stays_auth_example :
    (g : Fsm) × (validate_all
        (fsm auth (some start) (any ∷ []))
        (authorize_user ∷ reply_server ∷ message_user ∷ [])
      ≡ some (any ∷ any ∷ warn_client ∷ [], g))
    × (g.current_state ≡ auth)
second_authorize_stays_auth_example =
    second_authorize_stays_auth (fsm auth (some start) (any ∷ [])) refl refl

error_server_reopens_example :
    (g : Fsm) × (validate_all logged_in (error_server ∷ message_user ∷ message_user ∷ [])
      ≡ some (any ∷ warn_client ∷ any ∷ [], g))
    × (g.current_state ≡ opened)
error_server_reopens_example = error_server_reopens logged_in refl refl

validate_action-verdict_example :
    seen (validate_action logged_in message_user) ≡ some (verdict opened message_user)
validate_action-verdict_example = validate_action-verdict logged_in in_opened by_message refl
