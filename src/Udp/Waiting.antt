-- ===== src/Udp/Waiting.antt =====
-- The event loop with the UDP handler, beside the handler's own wait for a confirmation.
use ipk.Common.{
  [], ℕ, Bool, true, false, not, List, ◌≡◌, refl, some, Bytes, length, get_or, ◌==◌, if_elim,
  bytes_eq, lit, if◌then◌else◌,
}
use ipk.Udp.Fields.{split_message}
use ipk.Fsm.{Action, any, warn_client, authorize_user, join_user, message_user}
use ipk.Protocol.{
  ClientState, waiting_for_confirmation, over, Network, Run, returns, exits, undefined,
}
use ipk.Stream.{
  Poll, Loop, Course, polls, blocks_input, poll_arguments, is_over, start, run_event_loop,
}
use ipk.Stream.Invariant.{CourseKeeps}
use ipk.Stream.Methods.{CallKeeps, Methods, any_reports, run_event_loop-Methods}
use ipk.Udp.Validator.{authorize_validate, join_validate, message_validate, rename}
use ipk.Udp.Handler.{
  Udp, new_udp, reacting, on_auth, on_join, on_message, on_rename, leave, process_user_input,
}
use ipk.Udp.Received.{RecvFrom, failed, datagram, held, process_server_message}
use ipk.Udp.Cases.{reacting_cases, process_user_input_cases}
use ipk.Udp.Client.{udp_handler}

-- The loop's state beside the handler's flag.
pub data Aligned : ClientState → Bool → Type 0 where
  awaiting : {b : Bool} → Aligned waiting_for_confirmation b
  finished : {b : Bool} → Aligned over b
  resting : {state : ClientState} → Aligned state false

abbrev AlignedOf : ClientState → Udp → Type 0
AlignedOf state s = Aligned state s.waiting_for_confirmation

module _ (net : Network) where
  abbrev After : Run Udp ClientState → Type 0
  After = CallKeeps (udp_handler net) AlignedOf Unit

  held-After : (r : Run Udp ClientState) → After (held r)
  held-After (returns state s) = go s.waiting_for_confirmation
    where
      go : (b : Bool) → Aligned (if b then waiting_for_confirmation else state) b
      go true = awaiting
      go false = resting
  held-After (exits s) = tt
  held-After undefined = tt

  server-After : (d : RecvFrom) (s : Udp) → After (process_server_message net d s)
  unfolding process_server_message
  server-After failed s = finished
  server-After (datagram from m) s = held-After _

  -- The user's input is handled only where nothing is awaited.
  not_awaiting :
      (state : ClientState) (b : Bool)
      → is_over state ≡ false
      → blocks_input state ≡ false
      → Aligned state b
      → b ≡ false
  not_awaiting state b o i awaiting = cc i
  not_awaiting state b o i finished = cc o
  not_awaiting state b o i resting = refl

  abbrev Rests : Udp → Type 0
  Rests s = s.waiting_for_confirmation ≡ false

  resting_at : (state : ClientState) (b : Bool) → b ≡ false → Aligned state b
  resting_at state b h = rw h resting

  on_auth-After :
      (argument : Bytes) (r : Action) (s : Udp) → Rests s → After (on_auth net argument r s)
  unfolding on_auth
  on_auth-After argument any s h =
      let parts = split_message argument in
      let result =
        authorize_validate s.display_name 0x02 s.renamer3000 (get_or parts 0 []) (get_or parts 2 [])
          (get_or parts 1 []) in
      if_elim After (not (length parts == 3)) (resting_at _ _ h)
        (if_elim After result.0.1 awaiting (resting_at _ _ h))
  on_auth-After argument warn_client s h = resting_at _ _ h
  on_auth-After argument _ s h = tt

  on_join-After :
      (argument : Bytes) (r : Action) (s : Udp) → Rests s → After (on_join net argument r s)
  unfolding on_join
  on_join-After argument any s h =
      let parts = split_message argument in
      let result = join_validate s.display_name 0x03 s.renamer3000 (get_or parts 0 []) in
      if_elim After (not (length parts == 1)) (resting_at _ _ h)
        (if_elim After result.1 awaiting (resting_at _ _ h))
  on_join-After argument warn_client s h = resting_at _ _ h
  on_join-After argument _ s h = tt

  on_message-After : (m : Bytes) (r : Action) (s : Udp) → Rests s → After (on_message net m r s)
  unfolding on_message
  on_message-After m any s h =
      if_elim After (message_validate s.display_name 0x04 s.renamer3000 m).1 awaiting
        (resting_at _ _ h)
  on_message-After m warn_client s h = resting_at _ _ h
  on_message-After m _ s h = tt

  on_rename-After : (argument : Bytes) (s : Udp) → Rests s → After (on_rename net argument s)
  unfolding on_rename
  on_rename-After argument s h =
      if_elim After (not (rename s.display_name argument).0) (resting_at _ _ h) tt

  reacting-After :
      (a : Action) (rest : Action → Udp → Run Udp ClientState) (s : Udp)
      → ((r : Action) (t : Udp) → Rests t → After (rest r t))
      → Rests s
      → After (reacting a rest s)
  reacting-After a rest s k h =
      reacting_cases After (λ o. Unit) a rest s tt (λ x. tt) (λ r g x. k r _ h)

  user-After : (m : Bytes) (s : Udp) → Rests s → After (process_user_input net m s)
  unfolding leave
  user-After m s h =
      process_user_input_cases net After m s awaiting (λ _. awaiting)
        (λ _. reacting-After authorize_user _ s (on_auth-After _) h)
        (reacting-After join_user _ s (on_join-After _) h) (λ _ _. on_rename-After _ s h)
        (resting_at _ _ h) (resting_at _ _ h)
        (reacting-After message_user _ s (on_message-After m) h)

  exit-After : (s : Udp) → After (process_user_input net (lit "/exit") s)
  unfolding process_user_input leave bytes_eq lit
  exit-After s = awaiting

  aligned : Methods (udp_handler net) AlignedOf Unit (λ _. Unit) (λ _. Unit)
  aligned = record {
    on_server = λ _ d s _ _ _. server-After d s;
    on_user = λ state m s o i _ h. user-After m s (not_awaiting state _ o i h);
    on_exit = λ _ s _ _. exit-After s;
    on_timeout = λ s h. awaiting;
    on_give_up = λ s h. finished;
  }

  Aligned-poll_arguments :
      (t : ℕ) (state : ClientState) (b : Bool)
      → is_over state ≡ false
      → Aligned state b
      → b ≡ true
      → poll_arguments t state ≡ (1, some t)
  unfolding poll_arguments
  Aligned-poll_arguments t state b o awaiting h = refl
  Aligned-poll_arguments t state b o finished h = cc o
  Aligned-poll_arguments t state b o resting h = cc h

  polls-Aligned :
      (course : Course Udp) (l : Loop Udp)
      → CourseKeeps (udp_handler net) (λ m. AlignedOf m.state m.handler) Unit course
      → course ≡ polls l
      → (is_over l.state ≡ false) × AlignedOf l.state l.handler
  polls-Aligned course l k e = rw e at k

  -- Whatever `poll` has returned: where the loop with the UDP handler waits in `poll` and the handler
  -- awaits a confirmation, `poll` waits for the socket alone, and with the confirmation timeout.
  pub awaited_is_timed :
      (address retrans t : ℕ) (pollings : List (Poll RecvFrom)) (l : Loop Udp)
      → run_event_loop (udp_handler net) pollings (start retrans (new_udp address)) ≡ polls l
      → l.handler.waiting_for_confirmation ≡ true
      → poll_arguments t l.state ≡ (1, some t)
  unfolding start new_udp
  awaited_is_timed address retrans t pollings l e w =
      let (o, a) =
        polls-Aligned _ l
          (run_event_loop-Methods (udp_handler net) AlignedOf Unit _ _ aligned pollings
            (start retrans (new_udp address)) (any_reports pollings) resting)
          e in
      Aligned-poll_arguments t l.state _ o a w
