-- ===== src/Fsm/Invariant.antt =====
-- What holds of the state machine between two actions, if only the actions that the protocol
-- handlers pass are given to it.
use ipk.Common.{List, [], ◌∷◌, Option, none, some, ◌≡◌, All}
use ipk.Fsm.{
  Action, authorize_user, join_user, message_user, message_server, bye_user, bye_server,
  error_server, reply_server, nreply_server, any, State, start, auth, opened, error, end, Fsm,
  initial, validate_action,
}

-- The actions that `TCPProtocolHandler` and `UDPProtocolHandler` pass to `validate_action`.
pub data Handled : Action → Type 0 where
  by_authorize : Handled authorize_user
  by_join : Handled join_user
  by_message : Handled message_user
  from_message : Handled message_server
  from_bye : Handled bye_server
  from_error : Handled error_server
  from_reply : Handled reply_server
  from_nreply : Handled nreply_server

-- Every state but ERROR.
pub data Live : State → Type 0 where
  at_start : Live start
  at_auth : Live auth
  at_opened : Live opened
  at_end : Live end

ruleset live = (at_start, at_auth, at_opened, at_end)

-- The current state, the previous one and the expected actions that stand together.
pub data Inv : State → Option State → List Action → Type 0 where
  fresh : Inv start none []
  free : {s : State} {p : Option State} → Live s → Inv s p (any ∷ [])
  replying : Inv auth (some auth) (reply_server ∷ nreply_server ∷ error_server ∷ [])
  again : Inv auth (some auth) (authorize_user ∷ [])
  failed : {p : State} → Live p → Inv error (some p) (bye_user ∷ [])
  ended : {p : State} → Live p → Inv end (some p) (bye_user ∷ [])

ruleset shapes = (fresh, free, replying, again, failed, ended, live)

abbrev pub InvOf : Fsm → Type 0
InvOf f = Inv f.current_state f.previous_state f.expected_action

-- The call has a result, and the invariant holds of the machine that it leaves.
abbrev pub Keeps : Option (Action × Fsm) → Type 0
Keeps none = ⊥
Keeps (some (r, g)) = InvOf g

abbrev pub fsm : State → Option State → List Action → Fsm
fsm s p e = record { current_state = s; previous_state = p; expected_action = e }

free-Keeps :
    {s : State} (p : Option State) {a : Action}
    → Live s
    → Handled a
    → Keeps (validate_action (fsm s p (any ∷ [])) a)
unfolding validate_action
free-Keeps p at_start by_authorize = search shapes
free-Keeps p at_start _ = search shapes
free-Keeps p at_auth by_authorize = search shapes
free-Keeps p at_auth _ = search shapes
free-Keeps p at_opened by_authorize = search shapes
free-Keeps p at_opened _ = search shapes
free-Keeps p at_end by_authorize = search shapes
free-Keeps p at_end _ = search shapes

-- `validate_action` of a handled action is defined in every state that the invariant allows, and
-- keeps the invariant.
pub validate_action-Keeps :
    {s : State} {p : Option State} {e : List Action} {a : Action}
    → Inv s p e
    → Handled a
    → Keeps (validate_action (fsm s p e) a)
unfolding validate_action
validate_action-Keeps (free {p = q} l) h = free-Keeps q l h
validate_action-Keeps fresh by_authorize = search shapes
validate_action-Keeps fresh _ = search shapes
validate_action-Keeps replying by_authorize = search shapes
validate_action-Keeps replying _ = search shapes
validate_action-Keeps again by_authorize = search shapes
validate_action-Keeps again _ = search shapes
validate_action-Keeps (failed l) by_authorize = search shapes
validate_action-Keeps (failed l) _ = search shapes
validate_action-Keeps (ended l) by_authorize = search shapes
validate_action-Keeps (ended l) _ = search shapes

-- A run of actions, with its reactions.
unfoldable pub validate_all : Fsm → List Action → Option (List Action × Fsm)
validate_all f [] = some ([], f)
validate_all f (a ∷ l) = elim (validate_action f a) [
  | none ↦ none
  | some (r, g) ↦ elim (validate_all g l) [ none ↦ none | some (rs, h) ↦ some (r ∷ rs, h) ]
]

abbrev pub KeepsAll : Option (List Action × Fsm) → Type 0
KeepsAll none = ⊥
KeepsAll (some (rs, g)) = InvOf g

-- The rest of a run, from the answer to its first action.
KeepsAll-cons :
    (o : Option (Action × Fsm)) (l : List Action)
    → Keeps o
    → ((g : Fsm) → InvOf g → KeepsAll (validate_all g l))
    → KeepsAll (elim o [
      | none ↦ none
      | some (r, g) ↦ elim (validate_all g l) [ none ↦ none | some (rs, h) ↦ some (r ∷ rs, h) ]
    ])
KeepsAll-cons (some (r, g)) l k rest = go (validate_all g l) (rest g k)
  where
    go :
        (o : Option (List Action × Fsm))
        → KeepsAll o
        → KeepsAll (elim o [ none ↦ none | some (rs, h) ↦ some (r ∷ rs, h) ])
    go (some (rs, h)) k = k
    go none k = k
KeepsAll-cons none l k rest = k

-- No run of handled actions from START meets undefined behaviour, and the invariant holds at its end.
pub validate_all-Keeps :
    (f : Fsm) (l : List Action) → InvOf f → All Handled l → KeepsAll (validate_all f l)
unfolding validate_all
validate_all-Keeps f [] i h = i
validate_all-Keeps f (a ∷ l) i (h, hs) =
    KeepsAll-cons (validate_action f a) l (validate_action-Keeps i h)
      (λ g j. validate_all-Keeps g l j hs)

pub initial-Inv : InvOf initial
unfolding initial
initial-Inv = fresh

pub reached-Inv :
    (l rs : List Action) (f : Fsm) → All Handled l → validate_all initial l ≡ some (rs, f) → InvOf f
reached-Inv l rs f hs h = rw h at (validate_all-Keeps initial l initial-Inv hs)
