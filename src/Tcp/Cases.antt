-- ===== src/Tcp/Cases.antt =====
-- The cases of `process_received` and `process_user_input`, up to the action that is passed to the
-- state machine and its reaction.
use ipk.Common.{
  ap, true, Bool, false, ◌&&◌, [], Option, none, some, ◌≡◌, arith, Bytes, lit, bytes_eq, ltb,
  length, get_or, ◌==◌, if◌then◌else◌, if_elim_eq,
}
use ipk.Text.{upper, find, before, after}
use ipk.Grammar.{split_message, validate_dname}
use ipk.Fsm.{
  Action, Fsm, any, message_server, bye_server, error_server, reply_server, nreply_server,
  authorize_user, join_user, message_user, validate_action,
}
use ipk.ClientOutput
use ipk.Protocol.{
  ClientState, ready_for_input, Network, Run, returns, undefined, ◌>>=◌, ◌>>◌, return, no_return,
}
use ipk.Tcp.Validator.{part}
use ipk.Tcp.Handler.{
  Tcp, bye, react, print, print_help, send_message, on_auth, on_join, on_rename, on_message,
  process_user_input,
}
use ipk.Tcp.Received.{on_server_message, on_reply, on_error, on_bye, on_unknown, process_received}
use ipk.Tcp.Outcome.{lacks_content}

-- The message is of that type.
abbrev pub is_command : Bytes → Bytes → Bool
is_command message command = bytes_eq (upper (part (split_message message) 0)) command

-- The message has that second part.
abbrev pub has_verdict : Bytes → Bytes → Bool
has_verdict message verdict =
    bytes_eq
      (if ltb 1 (length (split_message message))
        then upper (part (split_message message) 1)
        else [])
      verdict

-- The machine allows the action.
abbrev pub allows : Option (Action × Fsm) → Bool
allows (some (any, g)) = true
allows _ = false

-- A REPLY that is neither OK nor NOK, or has no content and is allowed.
abbrev pub ill_replied : Bytes → Fsm → Bool
ill_replied message f =
    is_command message (lit "REPLY")
    && (if has_verdict message (lit "OK")
        then lacks_content message && allows (validate_action f reply_server)
        else if has_verdict message (lit "NOK")
        then lacks_content message && allows (validate_action f nreply_server)
        else true)

-- A /rename, in any case, with a valid display name.
abbrev pub renames : Bytes → Bool
renames message =
    let pos = find b' ' message in
    bytes_eq (upper (before pos message)) (lit "/RENAME") && validate_dname (after pos message)

-- What follows a reaction, from the reactions that are possible.
pub reacting_cases :
    (P : Run Tcp ClientState → Type 0) (Q : Option (Action × Fsm) → Type 0) (a : Action)
    (rest : Action → Tcp → Run Tcp ClientState) (s : Tcp)
    → Q (validate_action s.fsm a)
    → (Q none → P undefined)
    → ((r : Action) (g : Fsm) → Q (some (r, g)) → P (rest r (record s { fsm = g })))
    → P ((react a >>= rest) s)
unfolding react
reacting_cases P Q a rest s q n k = go (validate_action s.fsm a) q
  where
    go :
        (o : Option (Action × Fsm))
        → Q o
        → P (
            ◌>>=◌ {S = Tcp}
              (λ t. elim o [ none ↦ undefined | some (r, g) ↦ returns r (record t { fsm = g }) ])
              rest
              s)
    go none x = n x
    go (some (r, g)) x = k r g x

-- What follows a known reaction.
pub reacted :
    (a r : Action) (g : Fsm) (s : Tcp) (rest : Action → Tcp → Run Tcp ClientState)
    → validate_action s.fsm a ≡ some (r, g)
    → (react a >>= rest) s ≡ rest r (record s { fsm = g })
reacted a r g s rest h =
    reacting_cases (λ x. x ≡ rest r (record s { fsm = g })) (λ o. o ≡ some (r, g)) a rest s h
      (λ e. cc)
      (λ r' g' e.
        ap (λ o. elim o [ none ↦ undefined | some (x, y) ↦ rest x (record s { fsm = y }) ]) e)

module _ (net : Network) (P : Run Tcp ClientState → Type 0) where
  -- A REPLY, from the test of its type on.
  reply_cases :
      (m : Bytes) (s : Tcp)
      → (if has_verdict m (lit "OK")
          then lacks_content m && allows (validate_action s.fsm reply_server)
          else if has_verdict m (lit "NOK")
          then lacks_content m && allows (validate_action s.fsm nreply_server)
          else true)
        ≡ false
      → (has_verdict m (lit "OK") ≡ true
          → lacks_content m && allows (validate_action s.fsm reply_server) ≡ false
          → P ((react reply_server >>= on_reply net ClientOutput.reply_success m) s))
      → (lacks_content m && allows (validate_action s.fsm nreply_server) ≡ false
          → P ((react nreply_server >>= on_reply net ClientOutput.reply_error m) s))
      → P (
          (if has_verdict m (lit "OK")
              then (do
                reaction ← react reply_server
                on_reply net ClientOutput.reply_success m reaction)
              else if has_verdict m (lit "NOK")
              then (do
                reaction ← react nreply_server
                on_reply net ClientOutput.reply_error m reaction)
              else no_return)
            s)
  reply_cases m s n ok nok =
      if_elim_eq At (has_verdict m (lit "OK")) (λ e. ok e (ground (arith, n, e)))
        (λ not_ok.
          if_elim_eq At (has_verdict m (lit "NOK")) (λ e. nok (ground (arith, n, e)))
            (λ not_nok. absurd (ground (arith, n, not_ok, not_nok))))
    where
      At : (Tcp → Run Tcp ClientState) → Type 0
      At k = P (k s)

  pub process_received_cases :
      (m : Bytes) (s : Tcp)
      → ill_replied m s.fsm ≡ false
      → P ((react message_server >>= on_server_message net m) s)
      → (is_command m (lit "REPLY") ≡ true
          → has_verdict m (lit "OK") ≡ true
          → lacks_content m && allows (validate_action s.fsm reply_server) ≡ false
          → P ((react reply_server >>= on_reply net ClientOutput.reply_success m) s))
      → (lacks_content m && allows (validate_action s.fsm nreply_server) ≡ false
          → P ((react nreply_server >>= on_reply net ClientOutput.reply_error m) s))
      → P ((react error_server >>= on_error net m) s)
      → P ((react bye_server >>= on_bye net) s)
      → P (on_unknown net s)
      → P (process_received net m s)
  unfolding process_received
  process_received_cases m s n message ok nok error bye unknown =
      if_elim_eq At (is_command m (lit "MSG")) (λ _. message)
        (λ _.
          if_elim_eq At (is_command m (lit "REPLY"))
            (λ reply. reply_cases m s (ground (arith, n, reply)) (ok reply) nok)
            (λ _.
              if_elim_eq At (is_command m (lit "ERR")) (λ _. error)
                (λ _. if_elim_eq At (is_command m (lit "BYE")) (λ _. bye) (λ _. unknown))))
    where
      At : (Tcp → Run Tcp ClientState) → Type 0
      At k = P (k s)

  pub process_user_input_cases :
      (m : Bytes) (s : Tcp)
      → let argument = after (find b' ' m) m in
        P ((send_message net bye >> return ClientState.over) s)
        → (bytes_eq (upper (before (find b' ' m) m)) (lit "/AUTH") ≡ true
            → P ((react authorize_user >>= on_auth net argument) s))
        → P ((react join_user >>= on_join net argument) s)
        → (bytes_eq (upper (before (find b' ' m) m)) (lit "/RENAME") ≡ true
            → P (on_rename net argument s))
        → P ((print_help net >> return ready_for_input) s)
        → P (
            (print (ClientOutput.internal_error_message (lit "Invalid command"))
                >> return ready_for_input)
              s)
        → P ((react message_user >>= on_message net m) s)
        → P (process_user_input net m s)
  unfolding process_user_input
  process_user_input_cases m s leave auth join rename help refuse message =
      if_elim_eq At (bytes_eq m (lit "/exit")) (λ _. leave)
        (λ _. if_elim_eq At (is_typed (lit "/AUTH")) auth (λ _.
          if_elim_eq At (is_typed (lit "/JOIN")) (λ _. join)
            (λ _. if_elim_eq At (is_typed (lit "/RENAME")) rename (λ _.
              if_elim_eq At (is_typed (lit "/HELP")) (λ _. help)
                (λ _. if_elim_eq At (get_or m 0 0 == b'/') (λ _. refuse) (λ _. message))))))
    where
      At : (Tcp → Run Tcp ClientState) → Type 0
      At k = P (k s)

      is_typed : Bytes → Bool
      is_typed = bytes_eq (upper (before (find b' ' m) m))
