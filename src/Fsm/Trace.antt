-- ===== src/Fsm/Trace.antt =====
-- How far a session can have come after a list of actions.
use Prim.Native.Nat.{max}
use ipk.Common.{
  ℕ, Bool-cases, inl, inr, ◌≤◌, Bool, true, false, ◌&&◌, ◌||◌, List, [], ◌∷◌, Option, none, some,
  ◌≡◌, refl, arith, ◌==◌, if◌then◌else◌,
}
use ipk.Fsm.{
  Action, action_eq, authorize_user, bye_user, reply_server, State, start, auth, opened, error, end,
  Fsm, initial, switch_state, on_expected, unexpected, get_source, Source, user, server,
  is_restricted, validate_action,
}
use ipk.Fsm.Invariant.{validate_all}

-- An accepted authorisation: AUTHORIZE_USER, and later REPLY_SERVER.
abbrev replied : List Action → Bool
replied [] = false
replied (a ∷ l) = action_eq a reply_server || replied l

abbrev pub authorized : List Action → Bool
authorized [] = false
authorized (a ∷ l) = (action_eq a authorize_user && replied l) || authorized l

abbrev pub stage : State → ℕ
stage auth = 1
stage opened = 2
stage _ = 0

abbrev pub stage_before : Option State → ℕ
stage_before none = 0
stage_before (some s) = stage s

-- The furthest of the state and the one that it may go back to.
unfoldable pub progress : Fsm → ℕ
progress f = max (stage f.current_state) (stage_before f.previous_state)

unfoldable pub advance : ℕ → Action → ℕ
advance n a =
    if n == 0 && action_eq a authorize_user
    then 1
    else if n == 1 && action_eq a reply_server
    then 2
    else n

pub advance_mono : (a : Action) {m n : ℕ} → m ≤ n → advance m a ≤ advance n a
unfolding advance
advance_mono authorize_user h = ground arith
advance_mono reply_server h = ground arith
advance_mono _ h = ground arith

le-advance : (a : Action) (n : ℕ) → n ≤ advance n a
unfolding advance
le-advance a n = ground arith

-- What a step may reach, from the stage before it.
abbrev pub Within : ℕ → Option (Action × Fsm) → Type 0
Within n none = Unit
Within n (some (r, g)) = progress g ≤ n

switch_state-Within :
    (s : State) (a : Action) (f : Fsm)
    → f.current_state ≡ s
    → Within (advance (stage s) a) (switch_state s a (record f { previous_state = some s }))
unfolding switch_state progress advance
switch_state-Within start authorize_user f h = omega arith
switch_state-Within start _ f h = omega arith
switch_state-Within auth authorize_user f h = omega arith
switch_state-Within auth _ f h = omega arith
switch_state-Within opened authorize_user f h = omega arith
switch_state-Within opened _ f h = omega arith
switch_state-Within error bye_user f h = omega arith
switch_state-Within error _ f h = tt
switch_state-Within end _ f h = rw h (omega arith)

on_expected-Within :
    (o : Option Bool) (a : Action) (f : Fsm) → Within (progress f) (on_expected o a f)
unfolding progress
on_expected-Within none a f = tt
on_expected-Within (some true) a f = omega arith
on_expected-Within (some false) a f = go (get_source a) f.previous_state refl
  where
    go :
        (o : Option Source) (p : Option State)
        → f.previous_state ≡ p
        → Within (progress f) (unexpected o p f)
    go (some user) (some s) e = rw e (omega arith)
    go (some user) none e = tt
    go (some server) p e = omega arith
    go none p e = tt

pub stage-le-progress : (f : Fsm) → stage f.current_state ≤ progress f
unfolding progress
stage-le-progress f = omega arith

pub Within-trans : {m n : ℕ} (o : Option (Action × Fsm)) → Within m o → m ≤ n → Within n o
Within-trans none w h = tt
Within-trans (some (r, g)) w h = omega arith

pub validate_action-Within :
    (f : Fsm) (a : Action) → Within (advance (progress f) a) (validate_action f a)
unfolding validate_action
validate_action-Within f a = elim (Bool-cases (is_restricted f.expected_action)) [
  | inl e ↦ rw e (Within-trans _ (on_expected-Within _ a f) (le-advance a (progress f)))
  | inr e ↦ rw e (
      Within-trans _ (switch_state-Within f.current_state a f refl)
        (advance_mono a (stage-le-progress f)))
]

-- The stage after a list of actions, at most.
abbrev advance_all : ℕ → List Action → ℕ
advance_all n [] = n
advance_all n (a ∷ l) = advance_all (advance n a) l

advance_all_mono : (l : List Action) {m n : ℕ} → m ≤ n → advance_all m l ≤ advance_all n l
advance_all_mono [] h = h
advance_all_mono (a ∷ l) h = advance_all_mono l (advance_mono a h)

abbrev WithinAll : ℕ → Option (List Action × Fsm) → Type 0
WithinAll n none = Unit
WithinAll n (some (rs, g)) = progress g ≤ n

validate_all-Within :
    (f : Fsm) (l : List Action) → WithinAll (advance_all (progress f) l) (validate_all f l)
unfolding validate_all
validate_all-Within f [] = omega arith
validate_all-Within f (a ∷ l) =
    go (validate_action f a) (validate_action-Within f a) (λ g. validate_all-Within g l)
  where
    last :
        (r : Action) (m n : ℕ) (o : Option (List Action × Fsm))
        → m ≤ n
        → WithinAll m o
        → WithinAll n (elim o [ none ↦ none | some (rs, h) ↦ some (r ∷ rs, h) ])
    last r m n none h w = tt
    last r m n (some (rs, g)) h w = omega arith

    go :
        (o : Option (Action × Fsm))
        → Within (advance (progress f) a) o
        → ((g : Fsm) → WithinAll (advance_all (progress g) l) (validate_all g l))
        → WithinAll (advance_all (advance (progress f) a) l) (elim o [
          | none ↦ none
          | some (r, g) ↦ elim (validate_all g l) [ none ↦ none | some (rs, h) ↦ some (r ∷ rs, h) ]
        ])
    go none w rest = tt
    go (some (r, g)) w rest = last r _ _ (validate_all g l) (advance_all_mono l w) (rest g)

-- What the stages say of the list.
advance_all_one : (l : List Action) → 2 ≤ advance_all 1 l → replied l ≡ true
unfolding advance
advance_all_one [] h = absurd (omega arith)
advance_all_one (a ∷ l) h = ground (arith, advance_all_one l)

advance_all_zero : (l : List Action) → 2 ≤ advance_all 0 l → authorized l ≡ true
unfolding advance
advance_all_zero [] h = absurd (omega arith)
advance_all_zero (a ∷ l) h = ground (arith, advance_all_zero l, advance_all_one l)

-- A session that has come to OPEN, from START and by any actions, has seen an AUTHORIZE_USER and
-- a REPLY_SERVER after it.
pub opened_needs_authorized :
    (l rs : List Action) (g : Fsm)
    → validate_all initial l ≡ some (rs, g)
    → g.current_state ≡ opened
    → authorized l ≡ true
unfolding progress initial
opened_needs_authorized l rs g h o =
    advance_all_zero l (ground (arith, rw h at (validate_all-Within initial l)))
