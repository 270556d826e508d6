-- ===== src/Tcp/Authorized.antt =====
-- What a TCP client has heard before it sends JOIN or MSG.
use ipk.Common.{
  Bool, true, false, ◌&&◌, List, [], ◌∷◌, ◌≡◌, ◌≢◌, arith, lit, bytes_eq, All, All-imp,
}
use ipk.Commands.{command_of}
use ipk.Fsm.{Action, Fsm, action_eq, authorize_user, reply_server}
use ipk.Fsm.Login.{UpTo, initial-UpTo, granted, level, level_mono, granted-later, level-Leads}
use ipk.Protocol.{ClientState, over, Network, Run, returns, exits, undefined}
use ipk.Tcp.Handler.{Tcp, new_tcp}
use ipk.Tcp.Cases.{is_command, has_verdict}
use ipk.Tcp.Session.{
  Input, line, message, failure, end_of_stream, input, Reached, new, next, InSession, ongoing,
  ended, Reached-Ongoing,
}
use ipk.Tcp.Passes.{
  Passes, by_auth, by_join, by_message, of_message, of_reply, of_nreply, of_error, of_bye,
}
use ipk.Tcp.Line.{SendsLineOf, SendsLineOf-imp, SpeaksOf, SpeaksAfter}
use ipk.Tcp.Answering.{input-SpeaksAfter, new-SpeaksOf}

-- A line of the user whose command is /AUTH, in any case.
abbrev pub asks : Input → Bool
asks (line m) = bytes_eq (command_of m) (lit "/AUTH")
asks _ = false

-- A message of the server that is a positive reply.
abbrev pub grants : Input → Bool
grants (message m) = is_command m (lit "REPLY") && has_verdict m (lit "OK")
grants _ = false

-- The user has asked for the login, and the server has granted it later.
abbrev pub LoggedIn : List Input → Type 0
LoggedIn is = granted asks grants is ≡ true

abbrev Reach : List Input → Fsm → Type 0
Reach is = UpTo (level asks grants is)

passed_asks :
    (i : Input) (a : Action) → Passes i a → action_eq a authorize_user ≡ true → asks i ≡ true
passed_asks (line m) _ (by_auth e) h = e
passed_asks (line m) _ by_join h = cc
passed_asks (line m) _ by_message h = cc
passed_asks (message m) _ of_message h = cc
passed_asks (message m) _ (of_reply c v) h = cc
passed_asks (message m) _ of_nreply h = cc
passed_asks (message m) _ of_error h = cc
passed_asks (message m) _ of_bye h = cc
passed_asks failure _ p h = absurd p
passed_asks end_of_stream _ p h = absurd p

passed_grants :
    (i : Input) (a : Action) → Passes i a → action_eq a reply_server ≡ true → grants i ≡ true
passed_grants (line m) _ (by_auth e) h = cc
passed_grants (line m) _ by_join h = cc
passed_grants (line m) _ by_message h = cc
passed_grants (message m) _ of_message h = cc
passed_grants (message m) _ (of_reply c v) h = ground (arith, c, v)
passed_grants (message m) _ of_nreply h = cc
passed_grants (message m) _ of_error h = cc
passed_grants (message m) _ of_bye h = cc
passed_grants failure _ p h = absurd p
passed_grants end_of_stream _ p h = absurd p

new-Reach : Reach [] new_tcp.fsm
unfolding new_tcp
new-Reach = initial-UpTo

-- What a call leaves has sent lines of the protocol only, JOIN and MSG only if `may`, also if the
-- process exits.
abbrev pub SendsAfter : Type 0 → Run Tcp ClientState → Type 0
SendsAfter may (returns _ s) = All (SendsLineOf may) s.log
SendsAfter may (exits s) = All (SendsLineOf may) s.log
SendsAfter may undefined = Unit

module _ (net : Network) where
  -- The states of a session, each with the inputs that led to it, the last one first.
  pub data Played : List Input → Tcp → Type 0 where
    started : Played [] new_tcp
    continued :
        {is : List Input} {s t : Tcp} {c : ClientState} (i : Input)
        → Played is s
        → input net i s ≡ returns c t
        → c ≢ over
        → Played (i ∷ is) t

  Played-Reached : {is : List Input} {s : Tcp} → Played is s → Reached net s
  Played-Reached started = new
  Played-Reached (continued i p e h) = next i (Played-Reached p) e h

  SpeaksOf-later :
      (i : Input) (is : List Input) (s : Tcp)
      → SpeaksOf (LoggedIn is) (Reach is) s
      → SpeaksOf (LoggedIn (i ∷ is)) (Reach (i ∷ is)) s
  SpeaksOf-later i is s h = record {
    is_named = h.is_named;
    log_sends =
        All-imp _ _ s.log (λ e. SendsLineOf-imp e (granted-later asks grants i is)) h.log_sends;
    machine = omega (arith, h.machine, level_mono asks grants i is);
  }

  input-Authorized :
      (is : List Input) {s : Tcp} (i : Input)
      → Reached net s
      → SpeaksOf (LoggedIn is) (Reach is) s
      → SpeaksAfter (LoggedIn (i ∷ is)) (Reach (i ∷ is)) (input net i s)
  input-Authorized is {s} i r h =
      input-SpeaksAfter net i s
        (λ a p.
          level-Leads asks grants i is s.fsm a (Reached-Ongoing net r) h.machine (passed_asks i a p)
            (passed_grants i a p))
        (SpeaksOf-later i is s h)

  Played-SpeaksOf : {is : List Input} {s : Tcp} → Played is s → SpeaksOf (LoggedIn is) (Reach is) s
  Played-SpeaksOf started = new-SpeaksOf new-Reach
  Played-SpeaksOf (continued {is} i p e h) =
      rw e at (input-Authorized is i (Played-Reached p) (Played-SpeaksOf p))

  only_lines :
      (may : Type 0) (I : Fsm → Type 0) (r : Run Tcp ClientState)
      → SpeaksAfter may I r
      → SendsAfter may r
  only_lines may I (returns _ s) h = h.log_sends
  only_lines may I (exits s) h = h.log_sends
  only_lines may I undefined h = tt

  -- After any inputs of a session of the TCP handler and one more: all that it has sent, also if the
  -- last call ends the client, is lines of the protocol, and JOIN or MSG are among them only if the
  -- user typed a line whose command is /AUTH and the server sent a positive reply later.
  pub chats_after_login :
      {is : List Input} {s : Tcp} (i : Input)
      → Played is s
      → SendsAfter (LoggedIn (i ∷ is)) (input net i s)
  chats_after_login {is} i p =
      only_lines _ _ _ (input-Authorized is i (Played-Reached p) (Played-SpeaksOf p))

  -- Where the inputs lead: to a state of the session, or with the last of them to its end.
  pub data Comes : List Input → Tcp → Type 0 where
    on : {is : List Input} {s : Tcp} → Played is s → Comes is s
    off :
        {is : List Input} {s t : Tcp} (i : Input)
        → Played is s
        → input net i s ≡ returns over t
        → Comes (i ∷ is) t

  pub Reached-Played : {s : Tcp} → Reached net s → (is : List Input) × Played is s
  Reached-Played new = ([], started)
  Reached-Played (next i r e h) = let (is, p) = Reached-Played r in (i ∷ is, continued i p e h)

  pub InSession-Comes :
      {c : ClientState} {s : Tcp} → InSession net c s → (is : List Input) × Comes is s
  InSession-Comes (ongoing c r) = let (is, p) = Reached-Played r in (is, on p)
  InSession-Comes (ended i r e) = let (is, p) = Reached-Played r in (i ∷ is, off i p e)

  pub Comes-SendsLineOf :
      {is : List Input} {s : Tcp} → Comes is s → All (SendsLineOf (LoggedIn is)) s.log
  Comes-SendsLineOf (on p) = (Played-SpeaksOf p).log_sends
  Comes-SendsLineOf (off i p e) = rw e at (chats_after_login i p)
