-- ===== src/Stream.antt =====
-- StreamHandler.h and StreamHandler.cpp: the event loop, over any protocol handler.
pub mod Retransmission
pub mod Rounds
pub mod Input
pub mod Invariant
pub mod Methods
use ipk.Common.{
  ℕ, ◌-◌, Bool, true, false, ◌&&◌, List, [], ◌∷◌, Option, none, some, ltb, if◌then◌else◌, Bytes,
  lit,
}
use ipk.Protocol.{
  ClientState, waiting_for_confirmation, waiting_for_reply, ready_for_input, over, Run, returns,
  exits, undefined,
}

-- `ProtocolHandler`, the interface: `H` is the object's state and `I` what its socket gives to one
-- call of `process_server_message`.
pub record ProtocolHandler (H I : Type 0) : Type 0 where
  pub process_server_message : I → H → Run H ClientState
  pub process_user_input : Bytes → H → Run H ClientState
  pub resend_last_message : H → H

-- What `poll` reports: -1, 0, or which of the two descriptors is ready, with what is then read
-- there. A line of the standard input is `none` at its end.
pub data Events (I : Type 0) : Type 0 where
  failed : Events I
  timeout : Events I
  ready : Option I → Option (Option Bytes) → Events I

-- One return of `poll`, and the flag `interrupted` after it.
pub record Poll (I : Type 0) : Type 0 where
  pub interrupted : Bool
  pub events : Events I

-- The variables of the loop; `retrans` does not change.
pub record Loop (H : Type 0) : Type 0 where
  pub state : ClientState
  pub retry_count : ℕ  -- uint8
  pub retrans : ℕ
  pub first_time_interrupted : Bool
  pub handler : H

unfoldable pub start : {H : Type 0} → ℕ → H → Loop H
start retry_count h = record {
  state = ready_for_input;
  retry_count = retry_count;
  retrans = retry_count;
  first_time_interrupted = true;
  handler = h;
}

abbrev pub awaits_confirmation : ClientState → Bool
awaits_confirmation waiting_for_confirmation = true
awaits_confirmation _ = false

abbrev pub blocks_input : ClientState → Bool
blocks_input waiting_for_confirmation = true
blocks_input waiting_for_reply = true
blocks_input _ = false

-- The arguments of `poll`: how many descriptors, and the timeout, `none` for -1.
unfoldable pub poll_arguments : ℕ → ClientState → ℕ × Option ℕ
poll_arguments confirmation_timeout state = (
  if blocks_input state then 1 else 2,
  if awaits_confirmation state then some confirmation_timeout else none,
)

-- A call of the handler, and what the loop does with the state that it returns.
abbrev pub calling :
    {H : Type 0}
    → Loop H
    → Run H ClientState
    → (ClientState → Loop H → Loop H)
    → Run (Loop H) (Unit {0})
calling l (returns state h) next = returns tt (next state (record l { handler = h }))
calling l (exits h) next = exits (record l { handler = h })
calling l undefined next = undefined

abbrev enter : {H : Type 0} → ClientState → Loop H → Loop H
enter state l = record l { state = state }

-- `retry_count = retrans` unless a confirmation is awaited still.
abbrev received : {H : Type 0} → ClientState → Loop H → Loop H
received state l = record l {
  state = state;
  retry_count = if awaits_confirmation state then l.retry_count else l.retrans;
}

module _ {H I : Type 0} (p : ProtocolHandler H I) where
  -- The standard input is ready.
  unfoldable pub on_line : Option Bytes → Loop H → Run (Loop H) (Unit {0})
  on_line none l = calling l (p.process_user_input (lit "/exit") l.handler) enter
  on_line (some []) l = returns tt l
  on_line (some (c ∷ input)) l = calling l (p.process_user_input (c ∷ input) l.handler) enter

  unfoldable pub on_events : Events I → Loop H → Run (Loop H) (Unit {0})
  unfolding on_line
  on_events failed l = exits l
  on_events timeout l =
      if awaits_confirmation l.state
      then (if ltb 0 l.retry_count
          then returns tt (record l {
            handler = p.resend_last_message l.handler;
            retry_count = l.retry_count - 1;
          })
          else returns tt (record l { state = over }))
      else returns tt l
  on_events (ready (some i) _) l = calling l (p.process_server_message i l.handler) received
  on_events (ready none none) l = returns tt l
  on_events (ready none (some line)) l =
      if blocks_input l.state then returns tt l else on_line line l

  -- The body of the loop behind `poll`.
  unfoldable pub round : Poll I → Loop H → Run (Loop H) (Unit {0})
  unfolding on_events
  round poll l =
      if poll.interrupted && l.first_time_interrupted
      then calling l (p.process_user_input (lit "/exit") l.handler)
          (λ state m. record m { state = state; first_time_interrupted = false })
      else on_events poll.events l

-- Where the loop stands after some returns of `poll`: it waits in `poll` again, it has closed the
-- socket and returned, the process has exited, or the behaviour is undefined.
pub data Course (H : Type 0) : Type 0 where
  polls : Loop H → Course H
  closes : Loop H → Course H
  fails : Course H
  crashes : Course H

abbrev pub is_over : ClientState → Bool
is_over over = true
is_over _ = false

-- What follows one round.
abbrev pub after_round : {H : Type 0} → (Loop H → Course H) → Run (Loop H) (Unit {0}) → Course H
after_round again (returns _ l) = again l
after_round again (exits _) = fails
after_round again undefined = crashes

-- `run_event_loop`, over what `poll` returns.
unfoldable pub run_event_loop :
    {H I : Type 0} → ProtocolHandler H I → List (Poll I) → Loop H → Course H
run_event_loop p [] l = if is_over l.state then closes l else polls l
run_event_loop p (poll ∷ more) l = elim (is_over l.state) [
  | true ↦ closes l
  | false ↦ after_round (run_event_loop p more) (round p poll l)
]
