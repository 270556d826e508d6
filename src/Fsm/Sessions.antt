-- ===== src/Fsm/Sessions.antt =====
-- Which user actions the machine allows, and some of its sessions.
use ipk.Common.{true, false, All, List, [], ◌∷◌, Option, some, ◌≡◌, refl, arith}
use ipk.Fsm.{
  Action, authorize_user, join_user, message_user, error_server, reply_server, any, warn_client,
  State, auth, opened, Fsm, initial, is_restricted, validate_action,
}
use ipk.Fsm.Invariant.{
  Inv, fresh, free, replying, again, failed, ended, at_start, at_auth, at_opened, at_end,
  reached-Inv, fsm, Handled, validate_all,
}
use ipk.Fsm.Trace.{authorized, opened_needs_authorized}

-- What a user may do in OPEN only.
pub data Chats : Action → Type 0 where
  join : Chats join_user
  message : Chats message_user

pub Chats-opened :
    {s : State} {p : Option State} {e : List Action} {a : Action} (g : Fsm)
    → Inv s p e
    → Chats a
    → validate_action (record { current_state = s; previous_state = p; expected_action = e }) a
      ≡ some (any, g)
    → s ≡ opened
unfolding validate_action
Chats-opened g (free at_opened) c h = refl
Chats-opened g (free at_start) join h = cc
Chats-opened g (free at_start) message h = cc
Chats-opened g (free at_auth) join h = cc
Chats-opened g (free at_auth) message h = cc
Chats-opened g (free at_end) join h = cc
Chats-opened g (free at_end) message h = cc
Chats-opened g fresh join h = cc
Chats-opened g fresh message h = cc
Chats-opened g replying join h = cc
Chats-opened g replying message h = cc
Chats-opened g again join h = cc
Chats-opened g again message h = cc
Chats-opened g (failed l) join h = cc
Chats-opened g (failed l) message h = cc
Chats-opened g (ended l) join h = cc
Chats-opened g (ended l) message h = cc

-- After any actions that the handlers pass, a JOIN_USER or MESSAGE_USER is allowed only if an
-- AUTHORIZE_USER and a later REPLY_SERVER stand among those actions.
pub Chats-authorized :
    (l rs : List Action) {a : Action} (f g : Fsm)
    → All Handled l
    → validate_all initial l ≡ some (rs, f)
    → Chats a
    → validate_action f a ≡ some (any, g)
    → authorized l ≡ true
Chats-authorized l rs f g hs h c v =
    opened_needs_authorized l rs f h (Chats-opened g (reached-Inv l rs f hs h) c v)

-- In AUTH with nothing expected, AUTHORIZE_USER is allowed, and the REPLY_SERVER that answers it is
-- allowed too, but leaves the machine in AUTH, where a message of the user is refused.
pub second_authorize_stays_auth :
    (f : Fsm)
    → f.current_state ≡ auth
    → is_restricted f.expected_action ≡ false
    → (g : Fsm) × (validate_all f (authorize_user ∷ reply_server ∷ message_user ∷ [])
        ≡ some (any ∷ any ∷ warn_client ∷ [], g))
      × (g.current_state ≡ auth)
unfolding validate_all validate_action
second_authorize_stays_auth f s e = (fsm auth (some auth) (any ∷ []), ground arith, refl)

-- In OPEN with nothing expected, an ERROR_SERVER takes the machine to END. A first message of the
-- user is then refused, and a second one is allowed, in OPEN again.
pub error_server_reopens :
    (f : Fsm)
    → f.current_state ≡ opened
    → is_restricted f.expected_action ≡ false
    → (g : Fsm) × (validate_all f (error_server ∷ message_user ∷ message_user ∷ [])
        ≡ some (any ∷ warn_client ∷ any ∷ [], g))
      × (g.current_state ≡ opened)
unfolding validate_all validate_action
error_server_reopens f s e = (fsm opened (some opened) (any ∷ []), ground arith, refl)
