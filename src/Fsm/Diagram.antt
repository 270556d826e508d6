-- ===== src/Fsm/Diagram.antt =====
-- The state machine where nothing is expected, beside the diagram of the protocol.
use ipk.Common.{Bool, true, false, Option, none, some, ◌≡◌, refl, List, if◌then◌else◌}
use ipk.Fsm.{
  Action, authorize_user, join_user, message_user, message_server, bye_server, error_server,
  reply_server, nreply_server, any, warn_client, error_user, State, start, auth, opened, error, end,
  Fsm, is_restricted, validate_action,
}
use ipk.Fsm.Invariant.{fsm, Handled, by_authorize}
use ipk.Fsm.Ongoing.{Active, in_start, in_auth, in_opened}

-- The arrows: a client logs in, chats, and leaves when the server does or reports an error.
abbrev pub arrow : State → Action → Option State
arrow start authorize_user = some auth
arrow auth authorize_user = some auth
arrow auth reply_server = some opened
arrow auth nreply_server = some auth
arrow auth error_server = some end
arrow opened join_user = some opened
arrow opened message_user = some opened
arrow opened message_server = some opened
arrow opened reply_server = some opened
arrow opened nreply_server = some opened
arrow opened error_server = some end
arrow opened bye_server = some end
arrow _ _ = none

abbrev pub by_server : Action → Bool
by_server message_server = true
by_server bye_server = true
by_server error_server = true
by_server reply_server = true
by_server nreply_server = true
by_server _ = false

-- What the diagram says: an arrow is allowed. Where there is none, the user is warned and stays,
-- and to the server an error is reported.
abbrev pub verdict : State → Action → Action × State
verdict s a = elim (arrow s a) [
  | some t ↦ (any, t)
  | none ↦ if by_server a then (error_user, error) else (warn_client, s)
]

-- The reaction and the state of an answer.
abbrev pub seen : Option (Action × Fsm) → Option (Action × State)
seen none = none
seen (some (r, g)) = some (r, g.current_state)

free_verdict :
    {s : State} {a : Action} (p : Option State) (e : List Action)
    → Active s
    → Handled a
    → is_restricted e ≡ false
    → seen (validate_action (fsm s p e) a) ≡ some (verdict s a)
unfolding validate_action
free_verdict p e in_start by_authorize h = rw h refl
free_verdict p e in_start _ h = rw h refl
free_verdict p e in_auth by_authorize h = rw h refl
free_verdict p e in_auth _ h = rw h refl
free_verdict p e in_opened by_authorize h = rw h refl
free_verdict p e in_opened _ h = rw h refl

-- In START, AUTH and OPEN with nothing expected, the machine answers every action that the handlers
-- pass as the diagram says, the reaction and the next state.
pub validate_action-verdict :
    {a : Action} (f : Fsm)
    → Active f.current_state
    → Handled a
    → is_restricted f.expected_action ≡ false
    → seen (validate_action f a) ≡ some (verdict f.current_state a)
validate_action-verdict f s a h = free_verdict f.previous_state f.expected_action s a h
