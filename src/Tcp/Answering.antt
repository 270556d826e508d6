-- ===== src/Tcp/Answering.antt =====
-- What a TCP client sends in whole sessions: lines of the protocol only.
use ipk.Common.{◌∷◌, inl, refl, lit, All}
use ipk.Fsm.{Action, Fsm, validate_action}
use ipk.Fsm.Login.{Leads, free-Leads}
use ipk.Protocol.{ClientState, closed, cout, cerr, Network, Run, returns, exits, undefined}
use ipk.Tcp.Handler.{Tcp, new_tcp}
use ipk.Tcp.Session.{
  Input, line, message, failure, end_of_stream, InSession, ongoing, ended, input, Reached, new,
  next,
}
use ipk.Tcp.Passes.{Passes}
use ipk.Tcp.Line.{SendsLine, SpeaksOf, SpeaksAfter}
use ipk.Tcp.Speaking.{logged-SpeaksOf, process_user_input-SpeaksAfter}
use ipk.Tcp.Replying.{process_received-SpeaksAfter}

module _ (net : Network) {may : Type 0} {I : Fsm → Type 0} where
  pub input-SpeaksAfter :
      (i : Input) (s : Tcp)
      → ((a : Action) → Passes i a → Leads may I a (validate_action s.fsm a))
      → SpeaksOf may I s
      → SpeaksAfter may I (input net i s)
  unfolding input
  input-SpeaksAfter (line m) s l h = process_user_input-SpeaksAfter net m s l h
  input-SpeaksAfter (message m) s l h = process_received-SpeaksAfter net m s l h
  input-SpeaksAfter failure s l h = logged-SpeaksOf (cerr (lit "recv")) s tt h
  input-SpeaksAfter end_of_stream s l h =
      let t = record s { log = cout (lit "Server closed the connection") ∷ s.log } in
      logged-SpeaksOf closed t tt (logged-SpeaksOf (cout _) s tt h)

-- A new client has sent nothing.
pub new-SpeaksOf : {may : Type 0} {I : Fsm → Type 0} → I new_tcp.fsm → SpeaksOf may I new_tcp
unfolding new_tcp
new-SpeaksOf i = record { is_named = inl refl; log_sends = tt; machine = i }

module _ (net : Network) where
  -- Whatever the machine does.
  abbrev pub Free : Tcp → Type 0
  Free = SpeaksOf Unit (λ _. Unit)

  input-Free : (i : Input) (s : Tcp) → Free s → SpeaksAfter Unit (λ _. Unit) (input net i s)
  input-Free i s h = input-SpeaksAfter net i s (λ a _. free-Leads a (validate_action s.fsm a)) h

  Reached-SpeaksOf : {s : Tcp} → Reached net s → Free s
  Reached-SpeaksOf new = new-SpeaksOf tt
  Reached-SpeaksOf (next {s} i r e h) = rw e at (input-Free i s (Reached-SpeaksOf r))

  -- What a call leaves has sent lines of the protocol only, also if the process exits.
  abbrev pub SendsLinesAfter : Run Tcp ClientState → Type 0
  SendsLinesAfter (returns _ s) = All SendsLine s.log
  SendsLinesAfter (exits s) = All SendsLine s.log
  SendsLinesAfter undefined = Unit

  only_lines : (r : Run Tcp ClientState) → SpeaksAfter Unit (λ _. Unit) r → SendsLinesAfter r
  only_lines (returns _ s) h = h.log_sends
  only_lines (exits s) h = h.log_sends
  only_lines undefined h = tt

  -- Whatever lines the user types and whatever messages the server sends, a session of the TCP handler
  -- sends nothing but lines of the protocol with valid fields, where the display name may be empty
  -- in JOIN, MSG and ERR, up to and with its last call, also if that call ends the client.
  input-SendsLinesAfter : {s : Tcp} (i : Input) → Reached net s → SendsLinesAfter (input net i s)
  input-SendsLinesAfter {s} i r = only_lines _ (input-Free i s (Reached-SpeaksOf r))

  pub InSession-SpeaksOf : {c : ClientState} {s : Tcp} → InSession net c s → Free s
  InSession-SpeaksOf (ongoing c r) = Reached-SpeaksOf r
  InSession-SpeaksOf (ended {s} i r e) = rw e at (input-Free i s (Reached-SpeaksOf r))

  -- The same at any point of a session.
  pub InSession-SendsLine : {c : ClientState} {s : Tcp} → InSession net c s → All SendsLine s.log
  InSession-SendsLine r = (InSession-SpeaksOf r).log_sends
