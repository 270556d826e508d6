-- ===== src/Tcp/Outcome.antt =====
-- How the parts of `process_received` behind a reaction end.
use ipk.Common.{
  ℕ, suc, ◌≤◌, Bool, true, false, ◌&&◌, List, [], ◌∷◌, Option, none, some, ◌≡◌, ◌≢◌, ◌⊎◌, inl, inr,
  refl, arith, Bytes, lit, bytes_eq, ltb, length, drop, ◌==◌, if◌then◌else◌, Bool-cases,
  length-drop, if_elim,
}
use ipk.Text.{upper, pop_back}
use ipk.Grammar.{split_message}
use ipk.Fsm.{Action, Fsm, any, error_user}
use ipk.Protocol.{
  ◌>>◌, ClientState, over, ready_for_input, Effect, Network, Run, returns, exits, undefined, sent,
  cerr,
}
use ipk.Tcp.Validator.{
  part, glue, content_of, validate_reply, validate_message_server, validate_error_server,
}
use ipk.Tcp.Handler.{Tcp, bye, send_message, print, set_waiting}
use ipk.Tcp.Received.{give_up, on_server_message, on_reply, on_error, on_bye, on_unknown}

-- The method returns or the process exits, and if the client goes on, its machine is this one.
abbrev pub Settles : Fsm → Run Tcp ClientState → Type 0
Settles f (returns over s) = Unit
Settles f (returns _ s) = s.fsm ≡ f
Settles f (exits s) = Unit
Settles f undefined = ⊥

-- The method returns OVER or the process exits.
abbrev pub Ends : Run Tcp ClientState → Type 0
Ends (returns over s) = Unit
Ends (returns _ s) = ⊥
Ends (exits s) = Unit
Ends undefined = ⊥

pub Ends-Settles : (f : Fsm) (r : Run Tcp ClientState) → Ends r → Settles f r
Ends-Settles f (returns over s) h = tt
Ends-Settles f (returns _ s) h = absurd h
Ends-Settles f (exits s) h = tt
Ends-Settles f undefined h = h

-- What follows a result that is there.
some_elim :
    {A : Type 0} (P : Run Tcp ClientState → Type 0) {f : A → Run Tcp ClientState} (o : Option A)
    → o ≢ none
    → ((a : A) → P (f a))
    → P (elim o [ none ↦ undefined | some a ↦ f a ])
some_elim P none h k = absurd (h refl)
some_elim P (some a) h k = k a

pop_back-cons : (c : ℕ) (s : Bytes) → (r : Bytes) × (pop_back (c ∷ s) ≡ some r)
unfolding pop_back
pop_back-cons c [] = ([], refl)
pop_back-cons c (d ∷ s) = let (r, e) = pop_back-cons d s in (c ∷ r, ground (arith, e))

-- Some part, and so a space, stands behind the header.
content_of-cons :
    (parts : List Bytes) → 1 ≤ length parts → (r : Bytes) × (content_of parts ≡ some r)
unfolding content_of glue
content_of-cons [] h = absurd (omega arith)
content_of-cons ([] ∷ parts) h = pop_back-cons b' ' (glue parts)
content_of-cons ((c ∷ p) ∷ parts) h = pop_back-cons c _

behind_header :
    (n : ℕ) (parts : List Bytes)
    → ltb (length parts) (suc n) ≡ false
    → (r : Bytes) × (content_of (drop n parts) ≡ some r)
behind_header n parts h = content_of-cons _ (ground (arith, length-drop n parts))

validate_message_server-ne-none : (own message : Bytes) → validate_message_server own message ≢ none
unfolding validate_message_server
validate_message_server-ne-none own message =
    ground (arith, behind_header 4 (split_message message))

validate_error_server-ne-none : (message : Bytes) → validate_error_server message ≢ none
unfolding validate_error_server
validate_error_server-ne-none message = ground (arith, behind_header 4 (split_message message))

-- "REPLY OK IS" and the like: three parts, with nothing behind IS.
abbrev pub lacks_content : Bytes → Bool
lacks_content message =
    let parts = split_message message in
    length parts == 3 && bytes_eq (upper (part parts 2)) (lit "IS")

-- The only texts on which `validate_reply` has no result.
validate_reply-ne-none :
    (message : Bytes) → lacks_content message ≡ false → validate_reply message ≢ none
unfolding validate_reply
validate_reply-ne-none message n = ground (arith, behind_header 3 (split_message message))

module _ (net : Network) where
  -- A send returns or ends the process.
  pub sends :
      (m : Bytes) (s : Tcp)
      → (send_message net m s ≡ returns tt (record s { log = sent 0 m ∷ s.log }))
        ⊎ ((t : Tcp) × (send_message net m s ≡ exits t))
  unfolding send_message
  sends m s = elim (Bool-cases (net s.log m)) [
    | inl e ↦ inl (rw e)
    | inr e ↦ inr (
      record s { log = cerr (lit "Error sending message to the server") ∷ sent 0 m ∷ s.log },
      rw e,
    )
  ]

  -- What follows a send that succeeds.
  pub sent_then :
      (m : Bytes) (s : Tcp) (k : Tcp → Run Tcp ClientState)
      → net s.log m ≡ true
      → (send_message net m >> k) s ≡ k (record s { log = sent 0 m ∷ s.log })
  unfolding send_message
  sent_then m s k h = go (net s.log m) h
    where
      go :
          (b : Bool)
          → b ≡ true
          → ◌>>◌ {S = Tcp}
              (λ _.
                if b
                then returns tt (record s { log = sent 0 m ∷ s.log })
                else exits (record s {
                  log = cerr (lit "Error sending message to the server") ∷ sent 0 m ∷ s.log;
                }))
              k
              s
            ≡ k (record s { log = sent 0 m ∷ s.log })
      go true e = refl
      go false e = cc

  pub give_up-Ends : (e : Bytes) (s : Tcp) → Ends (give_up net e s)
  unfolding give_up
  give_up-Ends e s = ground (arith, sends e s, sends bye (record s { log = sent 0 e ∷ s.log }))

  gives_up : (f : Fsm) (e : Bytes) (s : Tcp) → Settles f (give_up net e s)
  gives_up f e s = Ends-Settles f _ (give_up-Ends e s)

  pub on_server_message-Settles :
      (m : Bytes) (r : Action) (s : Tcp) → Settles s.fsm (on_server_message net m r s)
  unfolding on_server_message print
  on_server_message-Settles m any s =
      some_elim (Settles s.fsm) (validate_message_server s.display_name m)
        (validate_message_server-ne-none s.display_name m)
        (λ x. if_elim (Settles s.fsm) x.1 (waits s.waiting_for_reply _) (gives_up s.fsm _ s))
    where
      waits :
          (b : Bool) (t : Tcp)
          → Settles t.fsm (returns (if b then ClientState.waiting_for_reply else ready_for_input) t)
      waits true t = refl
      waits false t = refl
  on_server_message-Settles m error_user s = gives_up _ _ s
  on_server_message-Settles m _ s = refl

  pub on_reply-Settles :
      (shown : Bytes → Effect) (m : Bytes) (r : Action) (s : Tcp)
      → (r ≡ any) ⊎ (r ≡ error_user)
      → lacks_content m ≡ false
      → Settles s.fsm (on_reply net shown m r s)
  unfolding on_reply print set_waiting
  on_reply-Settles shown m any s a n =
      some_elim (Settles s.fsm) (validate_reply m) (validate_reply-ne-none m n) (λ x.
        if_elim (Settles s.fsm) x.1 (if_elim (Settles s.fsm) s.waiting_for_reply refl refl)
          (gives_up s.fsm _ s))
  on_reply-Settles shown m error_user s a n = gives_up _ _ s
  on_reply-Settles shown m _ s a n = ground arith

  pub on_error-Ends :
      (m : Bytes) (r : Action) (s : Tcp) → (r ≡ any) ⊎ (r ≡ error_user) → Ends (on_error net m r s)
  unfolding on_error print
  on_error-Ends m any s a = grind (arith, validate_error_server-ne-none m, give_up-Ends, sends)
  on_error-Ends m error_user s a = give_up-Ends _ s
  on_error-Ends m _ s a = ground arith

  pub on_bye-Ends : (r : Action) (s : Tcp) → (r ≡ any) ⊎ (r ≡ error_user) → Ends (on_bye net r s)
  unfolding on_bye
  on_bye-Ends any s a = tt
  on_bye-Ends error_user s a = give_up-Ends _ s
  on_bye-Ends _ s a = ground arith

  pub on_unknown-Ends : (s : Tcp) → Ends (on_unknown net s)
  unfolding on_unknown print
  on_unknown-Ends s = give_up-Ends _ _

  -- A message or a reply that the state refuses.
  pub on_server_message_refused :
      (m : Bytes) (s : Tcp) → Ends (on_server_message net m error_user s)
  unfolding on_server_message
  on_server_message_refused m s = give_up-Ends _ s

  pub on_reply_refused :
      (shown : Bytes → Effect) (m : Bytes) (s : Tcp) → Ends (on_reply net shown m error_user s)
  unfolding on_reply
  on_reply_refused shown m s = give_up-Ends _ s
