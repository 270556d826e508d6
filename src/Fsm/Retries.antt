-- ===== src/Fsm/Retries.antt =====
-- A client whose authorisation the server refuses, and which tries again.
use ipk.Common.{ℕ, zero, suc, List, [], ◌∷◌, some, ◌≡◌, refl}
use ipk.Fsm.{
  Action, authorize_user, reply_server, nreply_server, message_user, any, auth, opened, Fsm,
  initial, validate_action,
}
use ipk.Fsm.Invariant.{fsm, validate_all}

-- So many refused attempts, and then other actions.
abbrev attempts : ℕ → List Action → List Action
attempts zero more = more
attempts (suc n) more = authorize_user ∷ nreply_server ∷ attempts n more

-- Each of these actions, and of three others, is allowed.
abbrev all_allowed : ℕ → List Action
all_allowed zero = any ∷ any ∷ any ∷ []
all_allowed (suc n) = any ∷ any ∷ all_allowed n

abbrev denied : Fsm
denied = fsm auth (some auth) (authorize_user ∷ [])

-- The last attempt, and a message.
abbrev success : List Action
success = authorize_user ∷ reply_server ∷ message_user ∷ []

abbrev chatting : Fsm
chatting = fsm opened (some opened) (any ∷ [])

denied_opens : (n : ℕ) → validate_all denied (attempts n success) ≡ some (all_allowed n, chatting)
unfolding validate_all validate_action
denied_opens zero = refl
denied_opens (suc n) = rw (denied_opens n) refl

-- From a new machine, any number of attempts to log in that the server refuses, then one that it grants,
-- and a message of the user are all allowed, and lead to OPEN.
retried_login_opens :
    (n : ℕ) → validate_all initial (attempts n success) ≡ some (all_allowed n, chatting)
unfolding validate_all validate_action initial
retried_login_opens zero = refl
retried_login_opens (suc n) = rw (denied_opens n) refl
