-- ===== src/Tcp/Replying.antt =====
-- What a TCP client sends in answer to the messages of the server: lines of the protocol only.
use ipk.Common.{
  Bool, true, [], ◌∷◌, ◌++◌, Option, none, some, ◌≡◌, inl, inr, refl, arith, Bytes, lit, if_elim,
  Bool-cases,
}
use ipk.Text.{upper, to_upper, is_print}
use ipk.Grammar.{split_message, validate_content, validate_dname, all_chars}
use ipk.Fsm.{
  Action, any, error_user, reply_server, nreply_server, message_server, error_server, bye_server,
  Fsm, validate_action,
}
use ipk.Fsm.Login.{Leads}
use ipk.ClientOutput
use ipk.Protocol.{ClientState, Effect, Network, Run, undefined}
use ipk.Tcp.Validator.{
  crlf, part, form_error_message, validate_reply, validate_message_server, validate_error_server,
}
use ipk.Tcp.Handler.{bye, Tcp, print, set_waiting}
use ipk.Tcp.Received.{
  give_up, on_server_message, on_reply, on_error, on_bye, on_unknown, process_received,
}
use ipk.Grammar.Accepts.{IsName, validate_dname-IsName, validate_content-IsContent}
use ipk.Tcp.Cases.{ill_replied, process_received_cases}
use ipk.Tcp.Session.{ill_replied_undefined}
use ipk.Tcp.Passes.{Heard, of_message, of_reply, of_nreply, of_error, of_bye}
use ipk.Tcp.RoundTrip.{length-upper}
use ipk.Tcp.Line.{Named, LineOf, SendsLineOf, SpeaksOf, SpeaksAfter}
use ipk.Tcp.Speaking.{logged-SpeaksOf, complaint-SpeaksOf, sends-SpeaksAfter, reacting-SpeaksAfter}

-- Upper case makes no character printable.
printable_before : (s : Bytes) → all_chars is_print (upper s) ≡ true → all_chars is_print s ≡ true
unfolding all_chars is_print to_upper
printable_before [] h = refl
printable_before (c ∷ s) h = ground (arith, printable_before s)

valid_before : (s : Bytes) → validate_dname (upper s) ≡ true → validate_dname s ≡ true
unfolding validate_dname
valid_before s h = ground (arith, length-upper s, printable_before s)

-- The name that `validate_message_server` returns, also with a message that is not valid.
validate_message_server-Named :
    (own m content user : Bytes) (valid : Bool)
    → Named own
    → validate_message_server own m ≡ some ((content, user), valid)
    → Named user
unfolding validate_message_server
validate_message_server-Named own m content user valid n h =
    let name = part (split_message m) 2 in
    let named : validate_dname (upper name) ≡ true → IsName name =
      λ v. validate_dname-IsName name (valid_before name v) in
    ground (arith, named)

-- What follows a result, if it is there.
option_elim :
    {A : Type 0} (may : Type 0) (I : Fsm → Type 0) (f : A → Run Tcp ClientState) (o : Option A)
    → ((a : A) → o ≡ some a → SpeaksAfter may I (f a))
    → SpeaksAfter may I (elim o [ none ↦ undefined | some a ↦ f a ])
option_elim may I f none k = tt
option_elim may I f (some a) k = k a refl

module _ (net : Network) {may : Type 0} {I : Fsm → Type 0} where
  give_up-SpeaksAfter :
      (text name : Bytes) (s : Tcp)
      → Named name
      → validate_content text ≡ true
      → SpeaksOf may I s
      → SpeaksAfter may I
          (give_up net (lit "ERR FROM " ++ (name ++ (lit " IS " ++ (text ++ crlf)))) s)
  unfolding give_up
  give_up-SpeaksAfter text name s n v h =
      sends-SpeaksAfter net _ _ s (LineOf.error name text n (validate_content-IsContent text v)) h
        (λ t g. sends-SpeaksAfter net bye _ t LineOf.bye g (λ u x. x))

  on_server_message-SpeaksAfter :
      (m : Bytes) (r : Action) (s : Tcp)
      → SpeaksOf may I s
      → SpeaksAfter may I (on_server_message net m r s)
  unfolding on_server_message print validate_content lit all_chars is_print
      ClientOutput.message_from_server
  on_server_message-SpeaksAfter m any s h =
      option_elim may I _ (validate_message_server s.display_name m) (λ ((content, user), valid) e.
        if_elim (SpeaksAfter may I) valid (logged-SpeaksOf _ s tt h) (
          give_up-SpeaksAfter (lit "Invalid message format") user s
            (validate_message_server-Named s.display_name m content user valid h.is_named e) refl
            h))
  on_server_message-SpeaksAfter m error_user s h =
      give_up-SpeaksAfter (lit "You cannot send messages at this state") [] s (inl refl) refl h
  on_server_message-SpeaksAfter m _ s h = h

  on_reply-SpeaksAfter :
      (shown : Bytes → Effect) (m : Bytes) (r : Action) (s : Tcp)
      → ((text : Bytes) → SendsLineOf may (shown text))
      → SpeaksOf may I s
      → SpeaksAfter may I (on_reply net shown m r s)
  unfolding on_reply print set_waiting validate_content lit all_chars is_print
  on_reply-SpeaksAfter shown m any s o h = option_elim may I _ (validate_reply m) (λ x _.
      if_elim (SpeaksAfter may I) x.1
        (if_elim (SpeaksAfter may I) s.waiting_for_reply (logged-SpeaksOf (shown x.0) s (o x.0) h)
          h)
        (give_up-SpeaksAfter (lit "Invalid reply format") s.display_name s h.is_named refl h))
  on_reply-SpeaksAfter shown m error_user s o h =
      give_up-SpeaksAfter (lit "You cannot send replies at this state") _ s h.is_named refl h
  on_reply-SpeaksAfter shown m _ s o h = tt

  on_error-SpeaksAfter :
      (m : Bytes) (r : Action) (s : Tcp) → SpeaksOf may I s → SpeaksAfter may I (on_error net m r s)
  unfolding on_error print validate_content lit all_chars is_print ClientOutput.error_from_server
  on_error-SpeaksAfter m any s h = option_elim may I _ (validate_error_server m) (λ x _.
      if_elim (SpeaksAfter may I) x.1
        (sends-SpeaksAfter net bye _
          (record s { log = ClientOutput.error_from_server x.0.1 x.0.0 ∷ s.log }) LineOf.bye
          (logged-SpeaksOf _ s tt h) (λ u y. y))
        (give_up-SpeaksAfter (lit "Invalid error message") s.display_name s h.is_named refl h))
  on_error-SpeaksAfter m error_user s h =
      give_up-SpeaksAfter (lit "You cannot send errors at this state") _ s h.is_named refl h
  on_error-SpeaksAfter m _ s h = tt

  on_bye-SpeaksAfter :
      (r : Action) (s : Tcp) → SpeaksOf may I s → SpeaksAfter may I (on_bye net r s)
  unfolding on_bye validate_content lit all_chars is_print
  on_bye-SpeaksAfter any s h = h
  on_bye-SpeaksAfter error_user s h =
      give_up-SpeaksAfter (lit "You cannot send BYE at this state") _ s h.is_named refl h
  on_bye-SpeaksAfter _ s h = tt

  on_unknown-SpeaksAfter : (s : Tcp) → SpeaksOf may I s → SpeaksAfter may I (on_unknown net s)
  unfolding on_unknown print form_error_message validate_content lit all_chars is_print
  on_unknown-SpeaksAfter s h =
      give_up-SpeaksAfter (lit "Invalid command") s.display_name
        (record s { log = ClientOutput.internal_error_message (lit "Invalid command") ∷ s.log })
        h.is_named refl (complaint-SpeaksOf (lit "Invalid command") s h)

  pub process_received-SpeaksAfter :
      (m : Bytes) (s : Tcp)
      → ((a : Action) → Heard m a → Leads may I a (validate_action s.fsm a))
      → SpeaksOf may I s
      → SpeaksAfter may I (process_received net m s)
  unfolding ClientOutput.reply_success ClientOutput.reply_error
  process_received-SpeaksAfter m s l h = elim (Bool-cases (ill_replied m s.fsm)) [
    | inl e ↦ rw (ill_replied_undefined net m s e) tt
    | inr e ↦
        process_received_cases net (SpeaksAfter may I) m s e
          (reacting-SpeaksAfter net message_server _ s (l _ of_message)
            (λ r t _. on_server_message-SpeaksAfter m r t) h)
          (λ c v _.
            reacting-SpeaksAfter net reply_server _ s (l _ (of_reply c v))
              (λ r t _. on_reply-SpeaksAfter _ m r t (λ text. tt)) h)
          (λ _.
            reacting-SpeaksAfter net nreply_server _ s (l _ of_nreply)
              (λ r t _. on_reply-SpeaksAfter _ m r t (λ text. tt)) h)
          (reacting-SpeaksAfter net error_server _ s (l _ of_error)
            (λ r t _. on_error-SpeaksAfter m r t) h)
          (reacting-SpeaksAfter net bye_server _ s (l _ of_bye) (λ r t _. on_bye-SpeaksAfter r t) h)
          (on_unknown-SpeaksAfter s h)
  ]
