-- ===== src/Udp/Answering.antt =====
-- What a UDP client sends in whole sessions: datagrams of the protocol only.
use ipk.Common.{ℕ, inl, refl, All}
use ipk.Fsm.{Action, Fsm, validate_action}
use ipk.Fsm.Login.{Leads, free-Leads}
use ipk.Protocol.{ClientState, cerr, Network, Run, returns, exits, undefined}
use ipk.Udp.Handler.{Udp, new_udp, resend_last_message}
use ipk.Udp.Received.{RecvFrom, failed, datagram, held, process_server_message}
use ipk.Udp.Session.{Input, line, socket, timeout, input, Reached, new, next}
use ipk.Udp.Passes.{Passes}
use ipk.Udp.Wire.{SendsWire, SpeaksOf}
use ipk.Udp.Sequence.{Sequenced, silent, again}
use ipk.Udp.SpeakingSends.{logged-SpeaksOf, send_message-SpeaksOf}
use ipk.Udp.Speaking.{SpeaksAfter, process_user_input-SpeaksAfter}
use ipk.Udp.Replying.{process_received-SpeaksAfter}

module _ (may : Type 0) (I : Fsm → Type 0) where
  -- One call of the event loop.
  abbrev pub SpeaksAt : Run Udp (Unit {0}) → Type 0
  SpeaksAt (returns _ s) = SpeaksOf may I s
  SpeaksAt (exits s) = Unit
  SpeaksAt undefined = Unit

  SpeaksAt-after :
      (r : Run Udp ClientState)
      → SpeaksAfter may I r
      → SpeaksAt (elim r [ returns _ t ↦ returns tt t | exits t ↦ exits t | undefined ↦ undefined ])
  SpeaksAt-after (returns _ t) h = h
  SpeaksAt-after (exits t) h = tt
  SpeaksAt-after undefined h = tt

  held-SpeaksAfter : (r : Run Udp ClientState) → SpeaksAfter may I r → SpeaksAfter may I (held r)
  held-SpeaksAfter (returns c s) h = h
  held-SpeaksAfter (exits s) h = h
  held-SpeaksAfter undefined h = h

module _ (net : Network) {may : Type 0} {I : Fsm → Type 0} where
  process_server_message-SpeaksAfter :
      (d : RecvFrom) (s : Udp)
      → ((a : Action) → Passes (socket d) a → Leads may I a (validate_action s.fsm a))
      → SpeaksOf may I s
      → SpeaksAfter may I (process_server_message net d s)
  unfolding process_server_message
  process_server_message-SpeaksAfter failed s l h = logged-SpeaksOf (cerr _) s tt h
  process_server_message-SpeaksAfter (datagram from m) s l h =
      held-SpeaksAfter may I _ (process_received-SpeaksAfter net m _ l h)

  resend_last_message-SpeaksOf :
      (s : Udp) → SpeaksOf may I s → SpeaksOf may I (resend_last_message net s)
  unfolding resend_last_message
  resend_last_message-SpeaksOf s h =
      send_message-SpeaksOf net s.last_message s h.last_sends (again _ h.in_order) h

  pub input-SpeaksAt :
      (i : Input) (s : Udp)
      → ((a : Action) → Passes i a → Leads may I a (validate_action s.fsm a))
      → SpeaksOf may I s
      → SpeaksAt may I (input net i s)
  unfolding input
  input-SpeaksAt (line m) s l h =
      SpeaksAt-after may I _ (process_user_input-SpeaksAfter net m s l h)
  input-SpeaksAt (socket d) s l h =
      SpeaksAt-after may I _ (process_server_message-SpeaksAfter d s l h)
  input-SpeaksAt timeout s l h = resend_last_message-SpeaksOf s h

-- A new client has sent nothing.
pub new-SpeaksOf :
    {may : Type 0} {I : Fsm → Type 0} (address : ℕ)
    → I (new_udp address).fsm
    → SpeaksOf may I (new_udp address)
unfolding new_udp
new-SpeaksOf address i = record {
  is_named = inl refl;
  log_sends = tt;
  last_sends = inl refl;
  error_valid = λ e. cc;
  in_order = silent;
  machine = i;
}

module _ (net : Network) where
  -- Whatever the machine does.
  abbrev pub Free : Udp → Type 0
  Free = SpeaksOf Unit (λ _. Unit)

  pub Reached-SpeaksOf : {address : ℕ} {s : Udp} → Reached net address s → Free s
  Reached-SpeaksOf {address} new = new-SpeaksOf address tt
  Reached-SpeaksOf (next {s} i r e) =
      rw e at (
        input-SpeaksAt net i s (λ a _. free-Leads a (validate_action s.fsm a)) (Reached-SpeaksOf r))

  -- Whatever lines the user types, whatever datagrams come and however often `poll` times out, a session of
  -- the UDP handler sends nothing but datagrams of the protocol with valid fields, where the display
  -- name may be empty in JOIN, MSG and ERR, and empty datagrams.
  pub Reached-SendsWire : {address : ℕ} {s : Udp} → Reached net address s → All SendsWire s.log
  Reached-SendsWire r = (Reached-SpeaksOf r).log_sends

  -- Whatever lines the user types, whatever datagrams come and however often poll times out, a
  -- session of the UDP handler is one of the abstract sender, with the handler's next id and last
  -- message: but for confirmations, each datagram that it sends is the last one again, or has the
  -- next id, from 0 on, one more than the last one modulo 65536.
  pub Reached-Sequenced :
      {address : ℕ} {s : Udp} → Reached net address s → Sequenced s.renamer3000 s.last_message s.log
  Reached-Sequenced r = (Reached-SpeaksOf r).in_order
