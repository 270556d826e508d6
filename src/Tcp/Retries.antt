-- ===== src/Tcp/Retries.antt =====
-- A TCP client whose login the server refuses, and which tries again.
use ipk.Common.{true, List, [], ◌∷◌, some, ◌≡◌, refl, ◌∙◌, Bytes, All}
use ipk.Grammar.{validate_content}
use ipk.Grammar.Split.{three_words}
use ipk.Grammar.Credentials.{Credentials}
use ipk.Fsm.{
  Fsm, authorize_user, any, start, auth, opened, initial, validate_action, reply_server,
  nreply_server,
}
use ipk.Fsm.Invariant.{fsm}
use ipk.Commands.{auth_line}
use ipk.Protocol.{waiting_for_reply, ready_for_input, Network, Log, returns}
use ipk.Tcp.Handler.{Tcp, new_tcp}
use ipk.Tcp.Cases.{reacted}
use ipk.Tcp.Session.{Input, line, message, input}
use ipk.Tcp.Authorized.{Played, started, continued}
use ipk.Tcp.Login.{
  ok_line, asked, granted, auth_command, ok_command, on_auth-three_words, on_reply-ok_line,
}
use ipk.Tcp.Refused.{nok_line, asking, denied, refused, on_reply-nok_line, nok_command}

-- An /auth, with the content of the reply to it.
pub record Attempt : Type 0 where
  pub id : Bytes
  pub secret : Bytes
  pub name : Bytes
  pub text : Bytes

pub record WellFormed (a : Attempt) : Type 0 where
  pub credentials : Credentials a.id a.secret a.name
  pub text_valid : validate_content a.text ≡ true

abbrev pub typed : Attempt → Input
typed a = line (auth_line (three_words a.id a.secret a.name))

-- The inputs of refused attempts, the last one first, and the client that they leave.
abbrev pub refusals : List Attempt → List Input
refusals [] = []
refusals (a ∷ more) = message (nok_line a.text) ∷ typed a ∷ refusals more

abbrev pub asks_again : Attempt → Fsm → Tcp → Tcp
asks_again a f s = asked a.id a.secret a.name f s

abbrev pub after_refusals : List Attempt → Tcp
after_refusals [] = new_tcp
after_refusals (a ∷ more) = refused a.text (asks_again a asking (after_refusals more))

-- The machine while the reply is awaited.
abbrev pub asking_after : List Attempt → Fsm
asking_after [] = fsm auth (some start) (any ∷ [])
asking_after (a ∷ more) = asking

-- The client that the server has let in at last.
abbrev pub logged_in : Attempt → List Attempt → Tcp
logged_in b tries =
    granted b.text (fsm opened (some auth) (any ∷ []))
      (asks_again b (asking_after tries) (after_refusals tries))

abbrev pub Takes : Network → Type 0
Takes net = (log : Log) (m : Bytes) → net log m ≡ true

may_be_refused :
    (tries : List Attempt) → validate_action (asking_after tries) nreply_server ≡ some (any, denied)
unfolding validate_action
may_be_refused [] = refl
may_be_refused (a ∷ tries) = refl

may_be_granted :
    (tries : List Attempt)
    → validate_action (asking_after tries) reply_server
      ≡ some (any, fsm opened (some auth) (any ∷ []))
unfolding validate_action
may_be_granted [] = refl
may_be_granted (a ∷ tries) = refl

module _ (net : Network) where
  -- The machine of a client that may ask allows it.
  may_ask :
      (tries : List Attempt)
      → validate_action (after_refusals tries).fsm authorize_user ≡ some (any, asking_after tries)
  unfolding validate_action initial new_tcp
  may_ask [] = refl
  may_ask (a ∷ more) = refl

  request :
      (tries : List Attempt) (b : Attempt)
      → Credentials b.id b.secret b.name
      → ((m : Bytes) → net (after_refusals tries).log m ≡ true)
      → input net (typed b) (after_refusals tries)
        ≡ returns waiting_for_reply (asks_again b (asking_after tries) (after_refusals tries))
  unfolding input
  request tries b c n =
      auth_command net (three_words b.id b.secret b.name) (after_refusals tries)
      ∙ reacted authorize_user any (asking_after tries) (after_refusals tries) _ (may_ask tries)
      ∙ on_auth-three_words net (record (after_refusals tries) { fsm = asking_after tries }) c (n _)

  refusal :
      (a : Attempt) (tries : List Attempt)
      → WellFormed a
      → input net
          (message (nok_line a.text))
          (asks_again a (asking_after tries) (after_refusals tries))
        ≡ returns ready_for_input (after_refusals (a ∷ tries))
  unfolding input
  refusal a tries w =
      let waiting = asks_again a (asking_after tries) (after_refusals tries) in
      nok_command net a.text waiting
      ∙ reacted nreply_server any denied waiting _ (may_be_refused tries)
      ∙ on_reply-nok_line net a.text waiting w.text_valid refl

  success :
      (b : Attempt) (tries : List Attempt)
      → WellFormed b
      → input net
          (message (ok_line b.text))
          (asks_again b (asking_after tries) (after_refusals tries))
        ≡ returns ready_for_input (logged_in b tries)
  unfolding input
  success b tries w =
      let waiting = asks_again b (asking_after tries) (after_refusals tries) in
      ok_command net b.text waiting
      ∙ reacted reply_server any (fsm opened (some auth) (any ∷ [])) waiting _
          (may_be_granted tries)
      ∙ on_reply-ok_line net b.text (record waiting { fsm = fsm opened (some auth) (any ∷ []) })
          w.text_valid refl

  refusals-Played :
      (tries : List Attempt)
      → All WellFormed tries
      → Takes net
      → Played net (refusals tries) (after_refusals tries)
  refusals-Played [] w n = started
  refusals-Played (a ∷ tries) (w, ws) n =
      continued (message (nok_line a.text))
        (continued (typed a) (refusals-Played tries ws n) (request tries a w.credentials (n _))
          (λ e. cc))
        (refusal a tries w) (λ e. cc)

  -- A network that takes every message. From a new TCP client, any number of attempts to log in that
  -- the server refuses and then one that it grants, each with well-formed credentials and a reply with
  -- valid content: the client goes on through all of them, and comes to OPEN with nothing expected,
  -- under the last name. It has sent one AUTH for each attempt and printed each reply, in this order,
  -- and has done nothing else.
  pub retried_login :
      (tries : List Attempt) (b : Attempt)
      → All WellFormed tries
      → WellFormed b
      → Takes net
      → Played net (message (ok_line b.text) ∷ typed b ∷ refusals tries) (logged_in b tries)
  retried_login tries b ws w n =
      continued (message (ok_line b.text))
        (continued (typed b) (refusals-Played tries ws n) (request tries b w.credentials (n _))
          (λ e. cc))
        (success b tries w) (λ e. cc)
