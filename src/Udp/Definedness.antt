-- ===== src/Udp/Definedness.antt =====
-- When the UDP handler's behaviour is defined, in whole sessions.
use ipk.Common.{
  ℕ, get_or, drop, ◌==◌, if◌then◌else◌, Bool, false, ◌≡◌, ◌⊎◌, refl, sym, arith, Bytes, true, ◌≢◌,
  ◌↔◌, inl, inr, Bool-cases,
}
use mathlib.Core.Path.{subst}
use ipk.Fsm.{initial}
use ipk.Fsm.Ongoing.{OngoingOf, unused}
use ipk.Commands.{rename_comes_to_its_test}
use ipk.Udp.Validator.{rename}
use ipk.Udp.Handler.{on_rename, Udp, new_udp, resend_last_message, process_user_input}
use ipk.Udp.Session.{Input, line, socket, timeout, input, Reached, new, next}
use ipk.Protocol.{ClientState, Network, Run, returns, exits, undefined}
use ipk.Text.{Ascii}
use ipk.Udp.Received.{RecvFrom, failed, datagram, process_server_message}
use ipk.Udp.Cases.{truncated, truncated_undefined, renames}
use ipk.Udp.Outcome.{send_message-fsm}
use ipk.Udp.Safety.{GoesOn, process_user_input-GoesOn, process_received-GoesOn, held-GoesOn}

-- One call of the event loop returns.
abbrev Continues : Run Udp (Unit {0}) → Type 0
Continues (returns _ s) = OngoingOf s.fsm
Continues (exits s) = ⊥
Continues undefined = ⊥

GoesOn-Continues :
    (r : Run Udp ClientState)
    → GoesOn r
    → Continues (elim r [ returns _ t ↦ returns tt t | exits t ↦ exits t | undefined ↦ undefined ])
GoesOn-Continues (returns _ t) h = h
GoesOn-Continues (exits t) h = h
GoesOn-Continues undefined h = h

Continues-ne-undefined : (r : Run Udp (Unit {0})) → Continues r → r ≢ undefined
Continues-ne-undefined (returns _ t) h e = cc
Continues-ne-undefined (exits t) h e = cc
Continues-ne-undefined undefined h e = h

-- A /rename with a valid display name, where no error waits to be sent, and a datagram that is empty or
-- a CONFIRM without a whole id.
abbrev pub improper : Input → Udp → Bool
improper (line m) s = renames m s.error_while_waiting
improper (socket failed) s = false
improper (socket (datagram from m)) s = truncated m
improper timeout s = false

-- The text of a datagram, behind its header, and behind the result and the second id of a REPLY.
abbrev pub text_of : Bytes → Bytes
text_of m = if get_or m 0 0 == 1 then drop 6 m else drop 3 m

-- The character classes of what the call reads are not those of negative characters.
abbrev pub AsciiDatagram : RecvFrom → Type 0
AsciiDatagram failed = Unit
AsciiDatagram (datagram from m) = Ascii (text_of m)

abbrev pub AsciiInput : Input → Type 0
AsciiInput (line m) = Ascii m
AsciiInput (socket d) = AsciiDatagram d
AsciiInput timeout = Unit

module _ (net : Network) where
  input-Continues :
      (i : Input) (s : Udp) → OngoingOf s.fsm → improper i s ≡ false → Continues (input net i s)
  unfolding input process_server_message resend_last_message
  input-Continues (line m) s g n = GoesOn-Continues _ (process_user_input-GoesOn net s g m n)
  input-Continues (socket failed) s g n = g
  input-Continues (socket (datagram from m)) s g n =
      GoesOn-Continues _
        (held-GoesOn _ (process_received-GoesOn net (record s { server_address = from }) g m n))
  input-Continues timeout s g n = subst OngoingOf (sym (send_message-fsm net s.last_message s)) g

  renames_undefined :
      (m : Bytes) (s : Udp)
      → renames m s.error_while_waiting ≡ true
      → process_user_input net m s ≡ undefined
  unfolding process_user_input on_rename rename
  renames_undefined m s h = ground (arith, rename_comes_to_its_test m)

  improper_undefined : (i : Input) (s : Udp) → improper i s ≡ true → input net i s ≡ undefined
  unfolding input process_server_message
  improper_undefined (line m) s h = rw (renames_undefined m s h, input) refl
  improper_undefined (socket failed) s h = cc
  improper_undefined (socket (datagram from m)) s h =
      rw (truncated_undefined net m (record s { server_address = from }) h, input) refl
  improper_undefined timeout s h = cc

  new-Ongoing : (address : ℕ) → OngoingOf (new_udp address).fsm
  unfolding new_udp initial
  new-Ongoing address = unused

  pub Reached-Ongoing : {address : ℕ} {s : Udp} → Reached net address s → OngoingOf s.fsm
  Reached-Ongoing {address} new = new-Ongoing address
  Reached-Ongoing (next {s} {t} i r e) = elim (Bool-cases (improper i s)) [
    | inl b ↦ cc (improper_undefined i s b)
    | inr b ↦ rw e at (input-Continues i s (Reached-Ongoing r) b)
  ]

  call-undefined_iff :
      (address : ℕ) (s : Udp) (i : Input)
      → Reached net address s
      → (input net i s ≡ undefined) ↔ (improper i s ≡ true)
  call-undefined_iff address s i r = (defined (Bool-cases (improper i s)), improper_undefined i s)
    where
      defined :
          (improper i s ≡ true) ⊎ (improper i s ≡ false)
          → input net i s ≡ undefined
          → improper i s ≡ true
      defined (inl b) e = b
      defined (inr b) e =
          absurd (Continues-ne-undefined _ (input-Continues i s (Reached-Ongoing r) b) e)

  -- In every state that a session of the UDP handler reaches, a call with a line or a datagram
  -- whose text has no byte above 127 meets undefined behaviour exactly if it is a /rename with a
  -- valid display name, where no error waits to be sent, or a datagram that is empty or a CONFIRM
  -- of less than three bytes.
  pub session-undefined_iff :
      (address : ℕ) (s : Udp) (i : Input)
      → Reached net address s
      → AsciiInput i
      → (input net i s ≡ undefined) ↔ (improper i s ≡ true)
  session-undefined_iff address s i r _ = call-undefined_iff address s i r

  -- A session meets undefined behaviour: some state of it, and an input that is improper there.
  abbrev pub Mishap : ℕ → Type 0
  Mishap address = (s : Udp) × ((i : Input) × (Reached net address s × (improper i s ≡ true)))

  pub undefined-Mishap :
      {address : ℕ} {s : Udp} (i : Input)
      → Reached net address s
      → input net i s ≡ undefined
      → Mishap address
  undefined-Mishap {address} {s} i r e = (s, (i, (r, (call-undefined_iff address s i r).0 e)))
