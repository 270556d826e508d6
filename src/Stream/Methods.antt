-- ===== src/Stream/Methods.antt =====
-- A property of the protocol handler's state, through any run of the event loop.
use ipk.Common.{
  ◌≡◌, refl, sym, if_elim_eq, true, false, ◌&&◌, List, [], ◌∷◌, Option, none, some, Bytes, lit, All,
  if_elim, ltb,
}
use mathlib.Core.Path.{subst}
use ipk.Protocol.{ClientState, waiting_for_confirmation, over, Run, returns, exits, undefined}
use ipk.Stream.{
  ProtocolHandler, Events, failed, timeout, ready, Poll, Loop, awaits_confirmation, blocks_input,
  calling, is_over, on_line, on_events, round, run_event_loop,
}
use ipk.Stream.Invariant.{RoundKeeps, CourseKeeps, run_event_loop-CourseKeeps}

-- What the user types at most once in a round, and what a return of `poll` leads to.
abbrev pub Typed : (Bytes → Type 0) → Option Bytes → Type 0
Typed L none = Unit
Typed L (some m) = L m

abbrev pub Reported : {I : Type 0} → (Bytes → Type 0) → (I → Type 0) → Events I → Type 0
Reported L S failed = Unit
Reported L S timeout = Unit
Reported L S (ready (some i) line) = S i
Reported L S (ready none none) = Unit
Reported L S (ready none (some line)) = Typed L line

-- Any report of `poll`.
any_report : {I : Type 0} (e : Events I) → Reported (λ _. Unit) (λ _. Unit) e
any_report failed = tt
any_report timeout = tt
any_report (ready (some i) line) = tt
any_report (ready none none) = tt
any_report (ready none (some none)) = tt
any_report (ready none (some (some m))) = tt

pub any_reports :
    {I : Type 0} (pollings : List (Poll I))
    → All (λ poll. Reported (λ _. Unit) (λ _. Unit) poll.events) pollings
any_reports [] = tt
any_reports (poll ∷ more) = (any_report poll.events, any_reports more)

awaits_confirmation-eq :
    (state : ClientState) → awaits_confirmation state ≡ true → state ≡ waiting_for_confirmation
awaits_confirmation-eq waiting_for_confirmation e = refl
awaits_confirmation-eq _ e = cc

-- A property of what the last call returned and of the handler's state, from what the
-- handler's methods keep.
module _ {H I : Type 0} (p : ProtocolHandler H I) (Q : ClientState → H → Type 0) (U : Type 0) where
  abbrev pub CallKeeps : Run H ClientState → Type 0
  CallKeeps (returns state h) = Q state h
  CallKeeps (exits h) = Unit
  CallKeeps undefined = U

  -- The handler's methods keep it, called when the loop calls them, with such a line of the user and
  -- such a result of the socket.
  pub record Methods (L : Bytes → Type 0) (S : I → Type 0) : Type 0 where
    pub on_server :
        (state : ClientState) (i : I) (h : H)
        → is_over state ≡ false
        → S i
        → Q state h
        → CallKeeps (p.process_server_message i h)
    pub on_user :
        (state : ClientState) (m : Bytes) (h : H)
        → is_over state ≡ false
        → blocks_input state ≡ false
        → L m
        → Q state h
        → CallKeeps (p.process_user_input m h)
    pub on_exit :
        (state : ClientState) (h : H)
        → is_over state ≡ false
        → Q state h
        → CallKeeps (p.process_user_input (lit "/exit") h)
    pub on_timeout :
        (h : H)
        → Q waiting_for_confirmation h
        → Q waiting_for_confirmation (p.resend_last_message h)
    pub on_give_up : (h : H) → Q waiting_for_confirmation h → Q over h

  abbrev Held : Loop H → Type 0
  Held l = Q l.state l.handler

  abbrev Kept : Run (Loop H) (Unit {0}) → Type 0
  Kept = RoundKeeps p Held U

  calling-RoundKeeps :
      (r : Run H ClientState) (l : Loop H) (next : ClientState → Loop H → Loop H)
      → ((state : ClientState) (m : Loop H) → Q state m.handler → Held (next state m))
      → CallKeeps r
      → Kept (calling l r next)
  calling-RoundKeeps (returns state h) l next n k = n state (record l { handler = h }) k
  calling-RoundKeeps (exits h) l next n k = tt
  calling-RoundKeeps undefined l next n k = k

  module _ (L : Bytes → Type 0) (S : I → Type 0) (k : Methods L S) where
    exit-Kept :
        (l : Loop H) (next : ClientState → Loop H → Loop H)
        → ((state : ClientState) (m : Loop H) → Q state m.handler → Held (next state m))
        → is_over l.state ≡ false
        → Held l
        → Kept (calling l (p.process_user_input (lit "/exit") l.handler) next)
    exit-Kept l next n o h = calling-RoundKeeps _ l next n (k.on_exit l.state l.handler o h)

    on_line-Kept :
        (line : Option Bytes) (l : Loop H)
        → is_over l.state ≡ false
        → blocks_input l.state ≡ false
        → Typed L line
        → Held l
        → Kept (on_line p line l)
    unfolding on_line
    on_line-Kept none l o b c h = exit-Kept l _ (λ state m g. g) o h
    on_line-Kept (some []) l o b c h = h
    on_line-Kept (some (x ∷ m)) l o b c h =
        calling-RoundKeeps _ l _ (λ state m g. g) (k.on_user l.state (x ∷ m) l.handler o b c h)

    timeout-Kept :
        (l : Loop H)
        → awaits_confirmation l.state ≡ true
        → Held l
        → Q l.state (p.resend_last_message l.handler) × Q over l.handler
    timeout-Kept l e h =
        let awaits = awaits_confirmation-eq l.state e in
        let held = subst (λ state. Q state l.handler) awaits h in
        (
          subst (λ state. Q state (p.resend_last_message l.handler)) (sym awaits)
              (k.on_timeout l.handler held),
          k.on_give_up l.handler held,
        )

    on_events-Kept :
        (e : Events I) (l : Loop H)
        → is_over l.state ≡ false
        → Reported L S e
        → Held l
        → Kept (on_events p e l)
    unfolding on_events
    on_events-Kept failed l o c h = tt
    on_events-Kept timeout l o c h =
        if_elim_eq Kept (awaits_confirmation l.state)
          (λ e. if_elim Kept (ltb 0 l.retry_count) (timeout-Kept l e h).0 (timeout-Kept l e h).1)
          (λ _. h)
    on_events-Kept (ready (some i) line) l o c h =
        calling-RoundKeeps _ l _ (λ state m g. g) (k.on_server l.state i l.handler o c h)
    on_events-Kept (ready none none) l o c h = h
    on_events-Kept (ready none (some line)) l o c h =
        if_elim_eq Kept (blocks_input l.state) (λ _. h) (λ b. on_line-Kept line l o b c h)

    round-Kept :
        (poll : Poll I) (l : Loop H)
        → is_over l.state ≡ false
        → Reported L S poll.events
        → Held l
        → Kept (round p poll l)
    unfolding round
    round-Kept poll l o c h =
        if_elim Kept (poll.interrupted && l.first_time_interrupted)
          (exit-Kept l _ (λ state m g. g) o h) (on_events-Kept poll.events l o c h)

    -- Any run of the event loop keeps it.
    pub run_event_loop-Methods :
        (pollings : List (Poll I)) (l : Loop H)
        → All (λ poll. Reported L S poll.events) pollings
        → Held l
        → CourseKeeps p Held U (run_event_loop p pollings l)
    run_event_loop-Methods =
        run_event_loop-CourseKeeps p Held U (λ poll. Reported L S poll.events) round-Kept
