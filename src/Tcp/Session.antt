-- ===== src/Tcp/Session.antt =====
-- Whole sessions of the TCP handler: the lines of the user, the messages of the server, and failures
-- and the end of the stream, in any order, as long as the client goes on.
use ipk.Common.{
  ◌∷◌, ◌||◌, drop_all, if_elim_eq, Bool, true, false, ◌&&◌, none, some, ◌≡◌, ◌≢◌, ◌↔◌, ◌⊎◌, inl,
  inr, refl, arith, Bytes, lit, bytes_eq, bytes_eq_iff, Bool-cases,
}
use ipk.Text.{Ascii, upper, pop_back}
use ipk.Grammar.{split_message}
use ipk.Fsm.{Action, Fsm, any, initial, reply_server, nreply_server, validate_action}
use ipk.Fsm.Ongoing.{OngoingOf, unused}
use ipk.Commands.{rename_comes_to_its_test}
use ipk.ClientOutput
use ipk.Protocol.{
  ClientState, ready_for_input, over, closed, cout, cerr, Effect, Network, Run, returns, exits,
  undefined, ◌>>=◌,
}
use ipk.Tcp.Validator.{part, glue, content_of, rename, validate_reply}
use ipk.Tcp.Handler.{Tcp, new_tcp, react, on_rename, process_user_input}
use ipk.Tcp.Received.{on_reply, process_received}
use ipk.Tcp.Outcome.{lacks_content}
use ipk.Tcp.Cases.{is_command, has_verdict, allows, ill_replied, renames, reacting_cases}
use ipk.Tcp.GoesOn.{GoesOn, process_received-GoesOn, process_user_input-GoesOn}

pub data Input : Type 0 where
  line message : Bytes → Input
  failure end_of_stream : Input

-- A /rename with a valid display name, and a REPLY that is neither OK nor NOK, or that is allowed but
-- lacks its content.
abbrev pub improper : Input → Tcp → Bool
improper (line m) s = renames m
improper (message m) s = ill_replied m s.fsm
improper _ s = false

-- The character classes of what the call reads are not those of negative characters.
abbrev pub AsciiInput : Input → Type 0
AsciiInput (line m) = Ascii m
AsciiInput (message m) = Ascii m
AsciiInput _ = Unit

GoesOn-ne-undefined : (r : Run Tcp ClientState) → GoesOn r → r ≢ undefined
GoesOn-ne-undefined (returns _ t) h e = cc
GoesOn-ne-undefined (exits t) h e = cc
GoesOn-ne-undefined undefined h e = h

validate_reply_contentless :
    (m : Bytes)
    → is_command m (lit "REPLY") ≡ true
    → has_verdict m (lit "OK") || has_verdict m (lit "NOK") ≡ true
    → lacks_content m ≡ true
    → validate_reply m ≡ none
unfolding validate_reply content_of glue pop_back
validate_reply_contentless m c v h = ground (arith, drop_all 3 (split_message m))

module _ (net : Network) where
  -- One call of the handler, or what it does with a `recv` call that gives no bytes.
  unfoldable pub input : Input → Tcp → Run Tcp ClientState
  input (line m) = process_user_input net m
  input (message m) = process_received net m
  input failure = λ s. returns ready_for_input (record s { log = cerr (lit "recv") ∷ s.log })
  input end_of_stream = λ s.
      returns over (record s { log = closed ∷ cout (lit "Server closed the connection") ∷ s.log })

  -- The states in which inputs leave the handler, without OVER.
  pub data Reached : Tcp → Type 0 where
    new : Reached new_tcp
    next :
        {s t : Tcp} {c : ClientState} (i : Input)
        → Reached s
        → input i s ≡ returns c t
        → c ≢ over
        → Reached t

  -- What a call returns and the state that it leaves, in a session: one that goes on, or that is over.
  pub data InSession : ClientState → Tcp → Type 0 where
    ongoing : {s : Tcp} (c : ClientState) → Reached s → InSession c s
    ended : {s t : Tcp} (i : Input) → Reached s → input i s ≡ returns over t → InSession over t

  input-GoesOn : (i : Input) (s : Tcp) → OngoingOf s.fsm → improper i s ≡ false → GoesOn (input i s)
  unfolding input
  input-GoesOn (line m) s g p = process_user_input-GoesOn net s g m p
  input-GoesOn (message m) s g p = process_received-GoesOn net s g m p
  input-GoesOn failure s g p = g
  input-GoesOn end_of_stream s g p = tt

  contentless_undefined :
      (shown : Bytes → Effect) (m : Bytes) (s : Tcp)
      → is_command m (lit "REPLY") ≡ true
      → has_verdict m (lit "OK") || has_verdict m (lit "NOK") ≡ true
      → lacks_content m ≡ true
      → on_reply net shown m any s ≡ undefined
  unfolding on_reply
  contentless_undefined shown m s c v h = rw (validate_reply_contentless m c v h, on_reply) refl

  allowed_undefined :
      (a : Action) (shown : Bytes → Effect) (m : Bytes) (s : Tcp)
      → is_command m (lit "REPLY") ≡ true
      → has_verdict m (lit "OK") || has_verdict m (lit "NOK") ≡ true
      → lacks_content m && allows (validate_action s.fsm a) ≡ true
      → (react a >>= on_reply net shown m) s ≡ undefined
  allowed_undefined a shown m s c v h =
      reacting_cases (λ r. r ≡ undefined) (λ o. lacks_content m && allows o ≡ true) a
        (on_reply net shown m) s h (λ x. refl) go
    where
      go :
          (r : Action) (g : Fsm)
          → lacks_content m && allows (some (r, g)) ≡ true
          → on_reply net shown m r (record s { fsm = g }) ≡ undefined
      go any g x = contentless_undefined shown m (record s { fsm = g }) c v (ground (arith, x))
      go _ g x = ground (arith, x)

  reply_only : (c : Bytes) → bytes_eq c (lit "REPLY") ≡ true → bytes_eq c (lit "MSG") ≡ false
  unfolding lit bytes_eq
  reply_only c h = rw ((bytes_eq_iff c (lit "REPLY")).0 h) refl

  pub ill_replied_undefined :
      (m : Bytes) (s : Tcp) → ill_replied m s.fsm ≡ true → process_received net m s ≡ undefined
  unfolding process_received
  ill_replied_undefined m s h =
      let c : is_command m (lit "REPLY") ≡ true = ground (arith, h) in
      if_elim_eq At (is_command m (lit "MSG"))
        (λ e. cc (e, reply_only (upper (part (split_message m) 0)) c))
        (λ _.
          if_elim_eq At (is_command m (lit "REPLY"))
            (λ _.
              if_elim_eq At (has_verdict m (lit "OK"))
                (λ v.
                  allowed_undefined reply_server ClientOutput.reply_success m s c
                    (ground (arith, v)) (ground (arith, h, v)))
                (λ w.
                  if_elim_eq At (has_verdict m (lit "NOK"))
                    (λ v.
                      allowed_undefined nreply_server ClientOutput.reply_error m s c
                        (ground (arith, v)) (ground (arith, h, v, w)))
                    (λ _. refl)))
            (λ e. cc (c, e)))
    where
      At : (Tcp → Run Tcp ClientState) → Type 0
      At k = k s ≡ undefined

  renames_undefined :
      (m : Bytes) (s : Tcp) → renames m ≡ true → process_user_input net m s ≡ undefined
  unfolding process_user_input on_rename rename
  renames_undefined m s h = ground (arith, rename_comes_to_its_test m)

  improper_undefined : (i : Input) (s : Tcp) → improper i s ≡ true → input i s ≡ undefined
  unfolding input
  improper_undefined (line m) s h = renames_undefined m s h
  improper_undefined (message m) s h = ill_replied_undefined m s h
  improper_undefined _ s h = cc h

  new-Ongoing : OngoingOf new_tcp.fsm
  unfolding new_tcp initial
  new-Ongoing = unused

  GoesOn-Ongoing : (c : ClientState) (t : Tcp) → c ≢ over → GoesOn (returns c t) → OngoingOf t.fsm
  GoesOn-Ongoing over t h g = absurd (h refl)
  GoesOn-Ongoing _ t h g = g

  pub Reached-Ongoing : {s : Tcp} → Reached s → OngoingOf s.fsm
  Reached-Ongoing new = new-Ongoing
  Reached-Ongoing (next {s} {t} {c} i r e h) = elim (Bool-cases (improper i s)) [
    | inl b ↦ cc (improper_undefined i s b)
    | inr b ↦ GoesOn-Ongoing c t h (rw e at (input-GoesOn i s (Reached-Ongoing r) b))
  ]

  call-undefined_iff :
      (s : Tcp) (i : Input) → Reached s → (input i s ≡ undefined) ↔ (improper i s ≡ true)
  call-undefined_iff s i r = (defined (Bool-cases (improper i s)), improper_undefined i s)
    where
      defined :
          (improper i s ≡ true) ⊎ (improper i s ≡ false)
          → input i s ≡ undefined
          → improper i s ≡ true
      defined (inl b) e = b
      defined (inr b) e = absurd (GoesOn-ne-undefined _ (input-GoesOn i s (Reached-Ongoing r) b) e)

  -- In every state that a session of the TCP handler reaches, as long as no call returns OVER, a
  -- call with a line or a message that has no byte above 127 meets undefined behaviour exactly if
  -- it is a /rename with a valid display name, or a REPLY that is neither OK nor NOK, or a REPLY of
  -- three parts that ends with IS and that the machine allows.
  pub input-undefined_iff :
      (s : Tcp) (i : Input)
      → Reached s
      → AsciiInput i
      → (input i s ≡ undefined) ↔ (improper i s ≡ true)
  input-undefined_iff s i r _ = call-undefined_iff s i r

  -- A session meets undefined behaviour: some state of it, and an input that is improper there.
  abbrev pub Mishap : Type 0
  Mishap = (s : Tcp) × ((i : Input) × (Reached s × (improper i s ≡ true)))

  pub undefined-Mishap : {s : Tcp} (i : Input) → Reached s → input i s ≡ undefined → Mishap
  undefined-Mishap {s} i r e = (s, (i, (r, (call-undefined_iff s i r).0 e)))
