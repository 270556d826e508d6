-- ===== src/Tcp/Line.antt =====
-- The lines of the protocol, and what a TCP client keeps so that it sends no others.
use ipk.Common.{[], ◌∷◌, ◌++◌, ◌≡◌, ◌⊎◌, Bytes, lit, All}
use ipk.Grammar.Accepts.{IsId, IsSecret, IsContent, IsName}
use ipk.Fsm.{Fsm}
use ipk.Protocol.{ClientState, Effect, sent, Log, Run, returns, exits, undefined}
use ipk.Tcp.Handler.{Tcp}

-- The name that a client has: none before its first well-formed /auth.
abbrev pub Named : Bytes → Type 0
Named name = (name ≡ []) ⊎ (IsName name)

-- The lines that a client may send, JOIN and MSG only if `may`.
pub data LineOf (may : Type 0) : Bytes → Type 0 where
  bye : LineOf may (lit "BYE" ++ (13 ∷ 10 ∷ []))
  auth :
      (username name secret : Bytes)
      → IsId username
      → IsName name
      → IsSecret secret
      → LineOf may (
          lit "AUTH "
          ++ (username ++ (lit " AS " ++ (name ++ (lit " USING " ++ (secret ++ (13 ∷ 10 ∷ [])))))))
  join :
      (channel name : Bytes)
      → may
      → IsId channel
      → Named name
      → LineOf may (lit "JOIN " ++ (channel ++ (lit " AS " ++ (name ++ (13 ∷ 10 ∷ [])))))
  message :
      (name content : Bytes)
      → may
      → Named name
      → IsContent content
      → LineOf may (lit "MSG FROM " ++ (name ++ (lit " IS " ++ (content ++ (13 ∷ 10 ∷ [])))))
  error :
      (name content : Bytes)
      → Named name
      → IsContent content
      → LineOf may (lit "ERR FROM " ++ (name ++ (lit " IS " ++ (content ++ (13 ∷ 10 ∷ [])))))

-- The lines of the protocol.
abbrev pub Line : Bytes → Type 0
Line = LineOf Unit

-- Of the effects, what is sent.
abbrev pub SendsLineOf : Type 0 → Effect → Type 0
SendsLineOf may (sent address m) = LineOf may m
SendsLineOf may _ = Unit

abbrev pub SendsLine : Effect → Type 0
SendsLine = SendsLineOf Unit

-- The name, the log, and a property of the machine.
pub record Speaks (may : Type 0) (I : Fsm → Type 0) (name : Bytes) (log : Log) (f : Fsm)
    : Type 0 where
  pub is_named : Named name
  pub log_sends : All (SendsLineOf may) log
  pub machine : I f

abbrev pub SpeaksOf : Type 0 → (Fsm → Type 0) → Tcp → Type 0
SpeaksOf may I s = Speaks may I s.display_name s.log s.fsm

-- The state that a method leaves.
abbrev pub SpeaksAfter : Type 0 → (Fsm → Type 0) → Run Tcp ClientState → Type 0
SpeaksAfter may I (returns _ s) = SpeaksOf may I s
SpeaksAfter may I (exits s) = SpeaksOf may I s
SpeaksAfter may I undefined = Unit

-- Lines that may be sent under one condition may be sent under a weaker one.
pub LineOf-imp : {may might : Type 0} (m : Bytes) → (may → might) → LineOf may m → LineOf might m
LineOf-imp m f bye = bye
LineOf-imp m f (auth username name secret u n s) = auth username name secret u n s
LineOf-imp m f (join channel name h c n) = join channel name (f h) c n
LineOf-imp m f (message name content h n c) = message name content (f h) n c
LineOf-imp m f (error name content n c) = error name content n c

pub SendsLineOf-imp :
    {may might : Type 0} (e : Effect) → (may → might) → SendsLineOf may e → SendsLineOf might e
SendsLineOf-imp (sent address m) f h = LineOf-imp m f h
SendsLineOf-imp _ f h = tt
