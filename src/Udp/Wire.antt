-- ===== src/Udp/Wire.antt =====
-- The datagrams of the protocol, and what a client keeps so that it sends no others.
use ipk.Common.{inl, inr, ◌<◌, arith, ℕ, Bool, true, ◌/◌, ◌%◌, [], ◌∷◌, ◌++◌, ◌≡◌, ◌⊎◌, Bytes, All}
use ipk.Udp.Fields.{validate_content}
use ipk.Grammar.Accepts.{IsId, IsSecret, IsContent, IsName}
use ipk.Fsm.{Fsm}
use ipk.Protocol.{Effect, sent, Log}
use ipk.Udp.Handler.{Udp}
use ipk.Udp.Awaited.{message_id-header}
use ipk.Udp.Sequence.{Sequenced, Numbered}

-- The name that a client has: none before its first well-formed /auth.
abbrev pub Named : Bytes → Type 0
Named name = (name ≡ []) ⊎ (IsName name)

-- The datagrams of a client's own, by their ids, each with its fields in order, JOIN and MSG only if
-- `may`.
pub data RequestOf (may : Type 0) : ℕ → Bytes → Type 0 where
  bye : (id : ℕ) → RequestOf may id (0xff ∷ id / 256 % 256 ∷ id % 256 ∷ [])
  auth :
      (id : ℕ) (username name secret : Bytes)
      → IsId username
      → IsName name
      → IsSecret secret
      → RequestOf may id (
          0x02
          ∷ id / 256 % 256
          ∷ id % 256
          ∷ (username ++ (0 ∷ (name ++ (0 ∷ (secret ++ (0 ∷ [])))))))
  join :
      (id : ℕ) (channel name : Bytes)
      → may
      → IsId channel
      → Named name
      → RequestOf may id (0x03 ∷ id / 256 % 256 ∷ id % 256 ∷ (channel ++ (0 ∷ (name ++ (0 ∷ [])))))
  message :
      (id : ℕ) (name content : Bytes)
      → may
      → Named name
      → IsContent content
      → RequestOf may id (0x04 ∷ id / 256 % 256 ∷ id % 256 ∷ (name ++ (0 ∷ (content ++ (0 ∷ [])))))
  error :
      (id : ℕ) (name content : Bytes)
      → Named name
      → IsContent content
      → RequestOf may id (0xfe ∷ id / 256 % 256 ∷ id % 256 ∷ (name ++ (0 ∷ (content ++ (0 ∷ [])))))

-- The datagrams that a client may send.
pub data WireOf (may : Type 0) : Bytes → Type 0 where
  confirm : (id : ℕ) → WireOf may (0 ∷ id / 256 % 256 ∷ id % 256 ∷ [])
  request : {id : ℕ} {m : Bytes} → RequestOf may id m → WireOf may m

pub Request-Numbered :
    {may : Type 0} {id : ℕ} {m : Bytes} → id < 65536 → RequestOf may id m → Numbered id m
Request-Numbered h (bye id) = (message_id-header 0xff id [] h, λ e. omega arith)
Request-Numbered h (auth id username name secret u n s) =
    (message_id-header 0x02 id [] h, λ e. omega arith)
Request-Numbered h (join id channel name _ c n) = (message_id-header 0x03 id [] h, λ e. omega arith)
Request-Numbered h (message id name content _ n c) =
    (message_id-header 0x04 id [] h, λ e. omega arith)
Request-Numbered h (error id name content n c) = (message_id-header 0xfe id [] h, λ e. omega arith)

-- Nothing, before a first message that could be sent again, or one of these.
abbrev pub SendableOf : Type 0 → Bytes → Type 0
SendableOf may m = (m ≡ []) ⊎ WireOf may m

-- Of the effects, what is sent.
abbrev pub SendsWireOf : Type 0 → Effect → Type 0
SendsWireOf may (sent address m) = SendableOf may m
SendsWireOf may _ = Unit

-- Every datagram of the protocol.
abbrev pub Request : ℕ → Bytes → Type 0
Request = RequestOf Unit

abbrev pub Wire : Bytes → Type 0
Wire = WireOf Unit

abbrev pub SendsWire : Effect → Type 0
SendsWire = SendsWireOf Unit

-- The effects that send nothing.
abbrev pub Silent : Effect → Type 0
Silent (sent address m) = ⊥
Silent _ = Unit

-- The name, the next id, the log, the last message, the error that waits to be sent, and a property of
-- the machine.
pub record Speaks (may : Type 0) (I : Fsm → Type 0) (name : Bytes) (next : ℕ) (log : Log)
    (last : Bytes) (waits : Bool) (text : Bytes) (f : Fsm) : Type 0 where
  pub is_named : Named name
  pub log_sends : All (SendsWireOf may) log
  pub last_sends : SendableOf may last
  pub error_valid : waits ≡ true → validate_content text ≡ true
  pub in_order : Sequenced next last log
  pub machine : I f

abbrev pub SpeaksOf : Type 0 → (Fsm → Type 0) → Udp → Type 0
SpeaksOf may I s =
    Speaks may I s.display_name s.renamer3000 s.log s.last_message s.error_while_waiting
      s.error_message s.fsm

-- What may be sent under one condition may be sent under a weaker one.
RequestOf-imp :
    {may might : Type 0} {id : ℕ} (m : Bytes)
    → (may → might)
    → RequestOf may id m
    → RequestOf might id m
RequestOf-imp m f (bye id) = bye id
RequestOf-imp m f (auth id username name secret u n s) = auth id username name secret u n s
RequestOf-imp m f (join id channel name h c n) = join id channel name (f h) c n
RequestOf-imp m f (message id name content h n c) = message id name content (f h) n c
RequestOf-imp m f (error id name content n c) = error id name content n c

pub SendableOf-imp :
    {may might : Type 0} (m : Bytes) → (may → might) → SendableOf may m → SendableOf might m
SendableOf-imp m f (inl e) = inl e
SendableOf-imp _ f (inr (confirm id)) = inr (confirm id)
SendableOf-imp m f (inr (request r)) = inr (request (RequestOf-imp m f r))

pub SendsWireOf-imp :
    {may might : Type 0} (e : Effect) → (may → might) → SendsWireOf may e → SendsWireOf might e
SendsWireOf-imp (sent address m) f h = SendableOf-imp m f h
SendsWireOf-imp _ f h = tt
