-- ===== src/Fsm.antt =====
-- FSMValidate.h and FSMValidate.cpp: the state machine that allows or refuses an action.
-- `none` is undefined behaviour: control that runs off the end of a function that returns a
-- value, or a read of `previousState` before anything was stored in it.
pub mod Invariant
pub mod Ongoing
pub mod Trace
pub mod Sessions
pub mod Login
pub mod Retries
pub mod Diagram
use ipk.Common.{
  ℕ, Bool, true, false, not, ◌||◌, List, [], ◌∷◌, Option, none, some, ◌==◌, if◌then◌else◌,
}

pub data Action : Type 0 where
  empty_server empty_user authorize_user join_user message_user message_server : Action
  bye_user bye_server error_user error_server reply_server nreply_server : Action
  any_user any_server any warn_client over : Action

pub data State : Type 0 where
  start auth opened error end : State

pub data Source : Type 0 where
  user server : Source

-- `expectedAction` is the vector, first element first.
pub record Fsm : Type 0 where
  pub current_state : State
  pub previous_state : Option State
  pub expected_action : List Action

unfoldable pub initial : Fsm
initial = record { current_state = start; previous_state = none; expected_action = [] }

-- The values of the enum, which `==` compares.
abbrev pub index : Action → ℕ
index empty_server = 0
index empty_user = 1
index authorize_user = 2
index join_user = 3
index message_user = 4
index message_server = 5
index bye_user = 6
index bye_server = 7
index error_user = 8
index error_server = 9
index reply_server = 10
index nreply_server = 11
index any_user = 12
index any_server = 13
index any = 14
index warn_client = 15
index over = 16

abbrev pub action_eq : Action → Action → Bool
action_eq a b = index a == index b

-- The loop over the expected actions.
abbrev pub expects : List Action → Action → Bool
expects [] action = false
expects (a ∷ expected) action = action_eq a action || expects expected action

-- `expectedAction[0]` of an empty vector is out of bounds.
abbrev first_is_any : List Action → Option Bool
first_is_any [] = none
first_is_any (a ∷ _) = some (action_eq a any)

unfoldable pub check_expected_action : List Action → Action → Option Bool
check_expected_action expected action =
    if expects expected action then some true else first_is_any expected

unfoldable pub get_source : Action → Option Source
get_source action =
    if action_eq action empty_server
      || action_eq action message_server
      || action_eq action bye_server
      || action_eq action error_server
      || action_eq action reply_server
      || action_eq action nreply_server
    then some server
    else if action_eq action empty_user
        || action_eq action authorize_user
        || action_eq action join_user
        || action_eq action message_user
        || action_eq action bye_user
        || action_eq action error_user
    then some user
    else none

-- `!expectedAction.empty() && expectedAction[0] != Action::ANY`
abbrev pub is_restricted : List Action → Bool
is_restricted [] = false
is_restricted (a ∷ _) = not (action_eq a any)

-- `expectedAction = …; currentState = …; return …;`
abbrev pub go : Fsm → State → List Action → Action → Option (Action × Fsm)
go f s expected reaction =
    some (reaction, record f { current_state = s; expected_action = expected })

-- The branch for an action that the state does not know: a warning for the user, an error to the
-- server.
abbrev pub unknown : Option Source → Fsm → State → Option (Action × Fsm)
unknown (some user) f s = go f s (any ∷ []) warn_client
unknown (some server) f s = go f error (bye_user ∷ []) error_user
unknown none f s = none

-- An action that was not expected; for the user `currentState = previousState`.
abbrev pub unexpected : Option Source → Option State → Fsm → Option (Action × Fsm)
unexpected (some user) (some s) f = go f s (any ∷ []) warn_client
unexpected (some user) none f = none
unexpected (some server) _ f = go f error (bye_user ∷ []) error_user
unexpected none _ f = none

-- The answer of `check_expected_action`, and what is done with it.
abbrev pub on_expected : Option Bool → Action → Fsm → Option (Action × Fsm)
on_expected none action f = none
on_expected (some false) action f = unexpected (get_source action) f.previous_state f
on_expected (some true) action f = go f f.current_state (any ∷ []) any

-- `switch (currentState)`, with `previousState` stored by the caller.
unfoldable pub switch_state : State → Action → Fsm → Option (Action × Fsm)
unfolding get_source
switch_state start action f =
    if action_eq action authorize_user
    then go f auth (any ∷ []) any
    else unknown (get_source action) f start
switch_state auth action f =
    if action_eq action authorize_user
    then go f auth (reply_server ∷ nreply_server ∷ error_server ∷ []) any
    else if action_eq action bye_user
    then go f end (empty_server ∷ error_server ∷ []) over
    else if action_eq action error_server
    then go f end (bye_user ∷ []) any
    else if action_eq action reply_server
    then go f opened (any ∷ []) any
    else if action_eq action nreply_server
    then go f auth (authorize_user ∷ []) any
    else unknown (get_source action) f auth
switch_state opened action f =
    if action_eq action message_server
      || action_eq action reply_server
      || action_eq action nreply_server
    then go f opened (any ∷ []) any
    else if action_eq action join_user || action_eq action message_user
    then go f opened (any ∷ []) any
    else if action_eq action error_server
    then go f end (bye_user ∷ []) any
    else if action_eq action bye_server
    then go f end (any ∷ []) any
    else if action_eq action bye_user
    then go f end (error_server ∷ []) any
    else if action_eq action error_user
    then go f end (bye_server ∷ []) any
    else unknown (get_source action) f opened
switch_state error action f =
    if action_eq action bye_user then go f end f.expected_action any else none
switch_state end action f = some (over, f)

unfoldable pub validate_action : Fsm → Action → Option (Action × Fsm)
unfolding check_expected_action get_source switch_state
validate_action f action =
    if is_restricted f.expected_action
    then on_expected (check_expected_action f.expected_action action) action f
    else switch_state f.current_state action (record f { previous_state = some f.current_state })
