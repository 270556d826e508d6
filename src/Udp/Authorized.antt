-- ===== src/Udp/Authorized.antt =====
-- What a UDP client has heard before it sends JOIN or MSG.
use ipk.Common.{ℕ, Bool, true, false, List, [], ◌∷◌, ◌≡◌, arith, lit, bytes_eq, All, All-imp}
use ipk.Commands.{command_of}
use ipk.Fsm.{Action, Fsm, action_eq, authorize_user, reply_server}
use ipk.Fsm.Login.{UpTo, initial-UpTo, granted, level, level_mono, granted-later, level-Leads}
use ipk.Protocol.{Network, returns}
use ipk.Udp.Handler.{Udp, new_udp}
use ipk.Udp.Received.{failed, datagram}
use ipk.Udp.Cases.{positive}
use ipk.Udp.Session.{Input, line, socket, timeout, input, Reached, new, next}
use ipk.Udp.Definedness.{Reached-Ongoing}
use ipk.Udp.Passes.{Passes, by_auth, by_join, by_message, of_message, of_reply, of_nreply, of_error}
use ipk.Udp.Wire.{SendsWireOf, SendsWireOf-imp, SendableOf-imp, SpeaksOf}
use ipk.Udp.Answering.{SpeaksAt, input-SpeaksAt, new-SpeaksOf}

-- A line of the user whose command is /AUTH, in any case.
abbrev pub asks : Input → Bool
asks (line m) = bytes_eq (command_of m) (lit "/AUTH")
asks _ = false

-- A datagram that is a positive reply with a valid content.
abbrev pub grants : Input → Bool
grants (socket (datagram from m)) = positive m
grants _ = false

-- The user has asked for the login, and the server has granted it later.
abbrev pub LoggedIn : List Input → Type 0
LoggedIn is = granted asks grants is ≡ true

abbrev Reach : List Input → Fsm → Type 0
Reach is = UpTo (level asks grants is)

passed_asks :
    (i : Input) (a : Action) → Passes i a → action_eq a authorize_user ≡ true → asks i ≡ true
passed_asks (line m) _ (by_auth e) h = e
passed_asks (line m) _ by_join h = cc
passed_asks (line m) _ by_message h = cc
passed_asks (socket (datagram from m)) _ of_message h = cc
passed_asks (socket (datagram from m)) _ (of_reply p) h = cc
passed_asks (socket (datagram from m)) _ of_nreply h = cc
passed_asks (socket (datagram from m)) _ of_error h = cc
passed_asks (socket failed) _ p h = absurd p
passed_asks timeout _ p h = absurd p

passed_grants :
    (i : Input) (a : Action) → Passes i a → action_eq a reply_server ≡ true → grants i ≡ true
passed_grants (line m) _ (by_auth e) h = cc
passed_grants (line m) _ by_join h = cc
passed_grants (line m) _ by_message h = cc
passed_grants (socket (datagram from m)) _ of_message h = cc
passed_grants (socket (datagram from m)) _ (of_reply p) h = p
passed_grants (socket (datagram from m)) _ of_nreply h = cc
passed_grants (socket (datagram from m)) _ of_error h = cc
passed_grants (socket failed) _ p h = absurd p
passed_grants timeout _ p h = absurd p

new-Reach : (address : ℕ) → Reach [] (new_udp address).fsm
unfolding new_udp
new-Reach address = initial-UpTo

module _ (net : Network) (address : ℕ) where
  -- The states of a session, each with the inputs that led to it, the last one first.
  pub data Played : List Input → Udp → Type 0 where
    started : Played [] (new_udp address)
    continued :
        {is : List Input} {s t : Udp} (i : Input)
        → Played is s
        → input net i s ≡ returns tt t
        → Played (i ∷ is) t

  pub Played-Reached : {is : List Input} {s : Udp} → Played is s → Reached net address s
  Played-Reached started = new
  Played-Reached (continued i p e) = next i (Played-Reached p) e

  SpeaksOf-later :
      (i : Input) (is : List Input) (s : Udp)
      → SpeaksOf (LoggedIn is) (Reach is) s
      → SpeaksOf (LoggedIn (i ∷ is)) (Reach (i ∷ is)) s
  SpeaksOf-later i is s h = record {
    is_named = h.is_named;
    log_sends =
        All-imp _ _ s.log (λ e. SendsWireOf-imp e (granted-later asks grants i is)) h.log_sends;
    last_sends = SendableOf-imp _ (granted-later asks grants i is) h.last_sends;
    error_valid = h.error_valid;
    in_order = h.in_order;
    machine = omega (arith, h.machine, level_mono asks grants i is);
  }

  input-Authorized :
      (is : List Input) {s : Udp} (i : Input)
      → Reached net address s
      → SpeaksOf (LoggedIn is) (Reach is) s
      → SpeaksAt (LoggedIn (i ∷ is)) (Reach (i ∷ is)) (input net i s)
  input-Authorized is {s} i r h =
      input-SpeaksAt net i s
        (λ a p.
          level-Leads asks grants i is s.fsm a (Reached-Ongoing net r) h.machine (passed_asks i a p)
            (passed_grants i a p))
        (SpeaksOf-later i is s h)

  Played-SpeaksOf : {is : List Input} {s : Udp} → Played is s → SpeaksOf (LoggedIn is) (Reach is) s
  Played-SpeaksOf started = new-SpeaksOf address (new-Reach address)
  Played-SpeaksOf (continued {is} i p e) =
      rw e at (input-Authorized is i (Played-Reached p) (Played-SpeaksOf p))

  -- After any inputs of a session of the UDP handler: all that it has sent is datagrams of the protocol
  -- and empty ones, and JOIN or MSG are among them only if the user typed a line whose command is /AUTH
  -- and a positive REPLY with a valid content came later.
  pub udp_chats_after_login :
      {is : List Input} {s : Udp} → Played is s → All (SendsWireOf (LoggedIn is)) s.log
  udp_chats_after_login p = (Played-SpeaksOf p).log_sends

  pub Reached-Played : {s : Udp} → Reached net address s → (is : List Input) × Played is s
  Reached-Played new = ([], started)
  Reached-Played (next i r e) = let (is, p) = Reached-Played r in (i ∷ is, continued i p e)
