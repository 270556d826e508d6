-- ===== src/Udp/Cases.antt =====
-- The cases of the UDP handler's methods, up to the action that is passed to the state machine.
use ipk.Common.{
  refl, ap, ℕ, Bool, true, false, not, ◌&&◌, List, [], ◌∷◌, Option, none, some, ◌≡◌, arith, Bytes,
  lit, bytes_eq, ltb, length, ◌<◌, get_or, drop, ◌==◌, if_elim_eq, if_elim,
}
use ipk.Text.{find, after, is_print}
use ipk.Grammar.{all_chars}
use ipk.Udp.Fields.{validate_dname, validate_content}
use ipk.Commands.{command_of}
use ipk.Fsm.{
  Action, Fsm, message_server, error_server, reply_server, nreply_server, authorize_user, join_user,
  message_user, validate_action,
}
use ipk.ClientOutput
use ipk.Protocol.{
  ClientState, ready_for_input, waiting_for_confirmation, Network, Run, returns, undefined,
}
use ipk.Udp.Validator.{parse_and_validate, reply, msg, err}
use ipk.Udp.Handler.{
  Udp, print, reacting, send_error_message, send_confirmation, leave, on_auth, on_join, on_rename,
  on_message, process_user_input,
}
use ipk.Udp.Received.{
  on_confirm, on_nreply, on_reply, on_reply_message, on_msg, on_msg_message, on_err, on_err_message,
  on_bye_message, on_unexpected, process_received,
}

-- No byte, or a CONFIRM without a whole id.
abbrev pub truncated : Bytes → Bool
truncated [] = true
truncated (c ∷ m) = c == 0 && ltb (length (c ∷ m)) 3

-- A REPLY that says OK, with a valid content.
abbrev pub positive : Bytes → Bool
positive message =
    get_or message 0 0 == 1
    && (parse_and_validate (drop 6 message) reply).1
    && get_or message 3 0 == 1

-- A /rename, in any case, with a valid display name, when no error waits to be sent.
abbrev pub renames : Bytes → Bool → Bool
renames message error_while_waiting =
    not error_while_waiting
    && bytes_eq (command_of message) (lit "/RENAME")
    && validate_dname (after (find b' ' message) message)

-- What follows a reaction, from the reactions that are possible.
pub reacting_cases :
    (P : Run Udp ClientState → Type 0) (Q : Option (Action × Fsm) → Type 0) (a : Action)
    (rest : Action → Udp → Run Udp ClientState) (s : Udp)
    → Q (validate_action s.fsm a)
    → (Q none → P undefined)
    → ((r : Action) (g : Fsm) → Q (some (r, g)) → P (rest r (record s { fsm = g })))
    → P (reacting a rest s)
unfolding reacting
reacting_cases P Q a rest s q n k = go (validate_action s.fsm a) q
  where
    go :
        (o : Option (Action × Fsm))
        → Q o
        → P (elim o [ none ↦ undefined | some (r, g) ↦ rest r (record s { fsm = g }) ])
    go none x = n x
    go (some (r, g)) x = k r g x

-- What follows a known reaction.
pub reacted :
    (a r : Action) (g : Fsm) (s : Udp) (rest : Action → Udp → Run Udp ClientState)
    → validate_action s.fsm a ≡ some (r, g)
    → reacting a rest s ≡ rest r (record s { fsm = g })
reacted a r g s rest h =
    reacting_cases (λ x. x ≡ rest r (record s { fsm = g })) (λ o. o ≡ some (r, g)) a rest s h
      (λ e. cc)
      (λ r' g' e.
        ap (λ o. elim o [ none ↦ undefined | some (x, y) ↦ rest x (record s { fsm = y }) ]) e)

pub truncated_undefined :
    (net : Network) (m : Bytes) (s : Udp)
    → truncated m ≡ true
    → process_received net m s ≡ undefined
unfolding process_received on_confirm
truncated_undefined net [] s h = refl
truncated_undefined net (c ∷ m) s h = ground arith

module _ (net : Network) (P : Run Udp ClientState → Type 0) where
  pub process_user_input_cases :
      (m : Bytes) (s : Udp)
      → let argument = after (find b' ' m) m in
        P (leave net s)
        → (s.error_while_waiting ≡ true
            → P (returns waiting_for_confirmation (send_error_message net s.error_message s)))
        → (bytes_eq (command_of m) (lit "/AUTH") ≡ true
            → P (reacting authorize_user (on_auth net argument) s))
        → P (reacting join_user (on_join net argument) s)
        → (s.error_while_waiting ≡ false
            → bytes_eq (command_of m) (lit "/RENAME") ≡ true
            → P (on_rename net argument s))
        → P (returns ready_for_input (record s { log = ClientOutput.print_help s.log }))
        → P (
            returns ready_for_input
              (print (ClientOutput.internal_error_message (lit "Invalid command")) s))
        → P (reacting message_user (on_message net m) s)
        → P (process_user_input net m s)
  unfolding process_user_input
  process_user_input_cases m s leaves waits auth join rename help refuse message =
      if_elim P (bytes_eq m (lit "/exit")) leaves (
        if_elim_eq P s.error_while_waiting waits (λ e.
          if_elim_eq P (bytes_eq (command_of m) (lit "/AUTH")) auth (λ _.
            if_elim P (bytes_eq (command_of m) (lit "/JOIN")) join (
              if_elim_eq P (bytes_eq (command_of m) (lit "/RENAME")) (rename e) (λ _.
                if_elim P (bytes_eq (command_of m) (lit "/HELP")) help
                  (if_elim P (get_or m 0 0 == b'/') refuse message))))))

  -- An error to the server, whose text is valid, with or without a confirmation before it.
  abbrev Refuses : Udp → Type 0
  Refuses s =
      (error : Bytes) (id : ℕ)
      → validate_content error ≡ true
      → P (returns waiting_for_confirmation (send_error_message net error s))
        × P (
            returns waiting_for_confirmation
              (send_error_message net error (send_confirmation net id s)))

  pub process_received_cases :
      (m : Bytes) (s : Udp)
      → truncated m ≡ false
      → (ltb (length m) 3 ≡ false → P (on_confirm net m s))
      → ((id ref : ℕ) (response : Bytes)
          → id < 65536
          → P (reacting nreply_server (on_nreply net id ref response) s))
      → ((id ref : ℕ) (response : Bytes)
          → id < 65536
          → positive m ≡ true
          → P (reacting reply_server (on_reply net id ref response) s))
      → ((id : ℕ) (words : List Bytes)
          → id < 65536
          → P (reacting message_server (on_msg net id words) s))
      → ((id : ℕ) (words : List Bytes)
          → id < 65536
          → P (reacting error_server (on_err net id words) s))
      → P (on_bye_message net m s)
      → Refuses s
      → P (process_received net m s)
  unfolding process_received on_reply_message on_msg_message on_err_message on_unexpected lit
      validate_content all_chars is_print
  process_received_cases [] s t confirm nok ok message error bye refuse = cc
  process_received_cases (c ∷ m) s t confirm nok ok message error bye refuse =
      if_elim_eq P (c == 0x00) (λ e. confirm (ground arith))
        (λ _.
          if_elim_eq P (c == 0x01)
            (λ k. if_elim P (ltb (length (c ∷ m)) 6) (refuse _ 0 refl).0 (
              if_elim_eq P (parse_and_validate (drop 6 (c ∷ m)) reply).1
                (λ v. if_elim P (get_or (c ∷ m) 3 0 == 0) (nok _ _ _ (omega arith)) (
                  if_elim_eq P (get_or (c ∷ m) 3 0 == 1)
                    (λ e. ok _ _ _ (omega arith) (ground (arith, k, v, e)))
                    (λ _. (refuse _ _ refl).1)))
                (λ _. (refuse _ 0 refl).0)))
            (λ _.
              if_elim P (c == 0x04)
                (if_elim P (ltb (length (c ∷ m)) 3) (refuse _ 0 refl).0 (
                  if_elim P (parse_and_validate (drop 3 (c ∷ m)) msg).1 (message _ _ (omega arith))
                    (refuse _ 0 refl).0))
                (if_elim P (c == 0xfe)
                  (if_elim P (ltb (length (c ∷ m)) 4) (refuse _ 0 refl).0 (
                    if_elim P (parse_and_validate (drop 3 (c ∷ m)) err).1 (error _ _ (omega arith))
                      (refuse _ _ refl).1))
                  (if_elim P (c == 0xff) bye
                    (if_elim P (ltb (length (c ∷ m)) 3) (refuse _ 0 refl).0 (refuse _ _ refl).1)))))
