-- ===== src/Fsm/Login.antt =====
-- The login of a client, read off the inputs of its handler: how far they let the state machine come.
use ipk.Common.{
  ℕ, ◌≤◌, Bool, true, false, ◌&&◌, ◌||◌, List, [], ◌∷◌, Option, none, some, ◌≡◌, refl, arith,
  if◌then◌else◌,
}
use ipk.Fsm.{
  State, Action, action_eq, authorize_user, reply_server, any, Fsm, initial, validate_action,
}
use ipk.Fsm.Invariant.{Inv, fresh, free, replying, again, Live, at_start, at_auth, at_opened}
use ipk.Fsm.Ongoing.{OngoingOf, Ongoing, unused, at, denied, Active, in_start, in_auth, in_opened}
use ipk.Fsm.Trace.{progress, advance, Within, Within-trans, advance_mono, validate_action-Within}
use ipk.Fsm.Sessions.{Chats, Chats-opened}

-- What may follow an action: the property holds of the machine, and a JOIN or MSG of the user is
-- allowed only if `may`.
abbrev pub Leads : Type 0 → (Fsm → Type 0) → Action → Option (Action × Fsm) → Type 0
Leads may I a none = Unit
Leads may I a (some (r, g)) = I g × (Chats a → r ≡ any → may)

-- Everything is allowed, and the machine is free.
pub free-Leads : (a : Action) (o : Option (Action × Fsm)) → Leads Unit (λ _. Unit) a o
free-Leads a none = tt
free-Leads a (some (r, g)) = (tt, λ c e. tt)

-- The machine has come so far at most.
abbrev pub UpTo : ℕ → Fsm → Type 0
UpTo n f = progress f ≤ n

Active-Inv : {s : State} {p : Option State} → Active s → Inv s p (any ∷ [])
Active-Inv in_start = free at_start
Active-Inv in_auth = free at_auth
Active-Inv in_opened = free at_opened

Active-Live : {s : State} → Active s → Live s
Active-Live in_start = at_start
Active-Live in_auth = at_auth
Active-Live in_opened = at_opened

Ongoing-Inv : {s : State} {p : Option State} {e : List Action} → Ongoing s p e → Inv s p e
Ongoing-Inv unused = fresh
Ongoing-Inv (at a) = Active-Inv a
Ongoing-Inv Ongoing.asked = replying
Ongoing-Inv denied = again
Ongoing-Inv (Ongoing.failed a) = Inv.failed (Active-Live a)
Ongoing-Inv (Ongoing.ended a) = Inv.ended (Active-Live a)

-- A user may chat only after the machine has come to OPEN.
Chats-progress :
    {a : Action} (f g : Fsm)
    → OngoingOf f
    → Chats a
    → validate_action f a ≡ some (any, g)
    → 2 ≤ progress f
unfolding progress
Chats-progress f g o c v = rw (Chats-opened g (Ongoing-Inv o) c v) (omega arith)

-- What an action makes of a machine that has come so far at most.
UpTo-Leads :
    {may : Type 0} {n k : ℕ} (f : Fsm) (a : Action)
    → OngoingOf f
    → UpTo n f
    → advance n a ≤ k
    → (2 ≤ n → may)
    → Leads may (UpTo k) a (validate_action f a)
UpTo-Leads {may} {n} {k} f a o u w m =
    go (validate_action f a) refl
      (Within-trans _ (validate_action-Within f a) (omega (arith, advance_mono a u, w)))
  where
    go : (r : Option (Action × Fsm)) → validate_action f a ≡ r → Within k r → Leads may (UpTo k) a r
    go none e x = tt
    go (some (r, g)) e x = (x, λ c i. m (omega (arith, Chats-progress f g o c (cc (e, i)), u)))

pub initial-UpTo : UpTo 0 initial
unfolding progress initial
initial-UpTo = omega arith

-- A history, the last input first: which inputs ask for the login, and which ones may grant it.
module _ {A : Type 0} (asks grants : A → Bool) where
  abbrev pub asked : List A → Bool
  asked [] = false
  asked (i ∷ is) = asks i || asked is

  -- An input that grants it, after one that asked for it.
  abbrev pub granted : List A → Bool
  granted [] = false
  granted (i ∷ is) = (grants i && asked is) || granted is

  -- How far the history lets the machine come.
  abbrev pub level : List A → ℕ
  level is = if granted is then 2 else if asked is then 1 else 0

  advance-le-level :
      (a : Action) (i : A) (is : List A)
      → (action_eq a authorize_user ≡ true → asks i ≡ true)
      → (action_eq a reply_server ≡ true → grants i ≡ true)
      → advance (level is) a ≤ level (i ∷ is)
  unfolding advance
  advance-le-level a i is x y = ground arith

  pub level_mono : (i : A) (is : List A) → level is ≤ level (i ∷ is)
  level_mono i is = ground arith

  -- More inputs allow no less.
  pub granted-later : (i : A) (is : List A) → granted is ≡ true → granted (i ∷ is) ≡ true
  granted-later i is h = ground arith

  level-granted : (is : List A) → 2 ≤ level is → granted is ≡ true
  level-granted is h = ground arith

  -- What an action of one more input makes of the machine.
  pub level-Leads :
      (i : A) (is : List A) (f : Fsm) (a : Action)
      → OngoingOf f
      → UpTo (level is) f
      → (action_eq a authorize_user ≡ true → asks i ≡ true)
      → (action_eq a reply_server ≡ true → grants i ≡ true)
      → Leads (granted (i ∷ is) ≡ true) (UpTo (level (i ∷ is))) a (validate_action f a)
  level-Leads i is f a o u x y =
      UpTo-Leads f a o u (advance-le-level a i is x y)
        (λ h. granted-later i is (level-granted is h))
