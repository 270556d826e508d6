-- ===== src/Tcp/SentStream.antt =====
-- The bytes that a TCP client sends, read by the framing that the client itself uses.
use ipk.Common.{
  ◌-◌, List, [], ◌∷◌, ◌++◌, some, inl, inr, ◌≡◌, ◌≢◌, refl, sym, ap, ◌∙◌, arith, append_assoc,
  append-nil, Bytes, lit, All, All-append, All-imp, length, length-append, take,
}
use ipk.Text.{find_crlf}
use ipk.Text.Crlf.{Lacks, take-append_self, unframe, unframe-append, unframe_tail}
use ipk.Grammar.Accepts.{IdChar}
use ipk.Protocol.{ClientState, ready_for_input, sent, Log, Network, Run, returns}
use ipk.Tcp.Validator.{crlf}
use ipk.Tcp.Handler.{Tcp}
use ipk.Tcp.Line.{Line, bye, auth, join, message, error, Named, SendsLine}
use ipk.Tcp.Delivery.{NoReturn-Lacks, Printable-NoReturn}
use ipk.Tcp.Framing.{handle_all, drain_buffer, drain_buffer-unframe}
use ipk.Tcp.Session.{InSession}
use ipk.Tcp.Answering.{InSession-SendsLine}

abbrev NoReturn : Bytes → Type 0
NoReturn = All (λ c. c ≢ 13)

-- One text with "\r\n" behind it.
abbrev Terminated : Bytes → Type 0
Terminated m = (text : Bytes) × (NoReturn text × (m ≡ text ++ crlf))

Terminated-append : (a m : Bytes) → NoReturn a → Terminated m → Terminated (a ++ m)
Terminated-append a m h (text, (t, e)) =
    (a ++ text, (All-append (λ c. c ≢ 13) a text h t, rw e (sym (append_assoc a text crlf))))

crlf-Terminated : Terminated crlf
crlf-Terminated = ([], (tt, refl))

IdChar-NoReturn : (s : Bytes) → All IdChar s → NoReturn s
IdChar-NoReturn s h = All-imp IdChar (λ c. c ≢ 13) s (λ c p. ground arith) h

Named-NoReturn : (name : Bytes) → Named name → NoReturn name
Named-NoReturn name (inl e) = rw e tt
Named-NoReturn name (inr v) = Printable-NoReturn name v.chars

Line-Terminated : (m : Bytes) → Line m → Terminated m
unfolding lit
Line-Terminated m bye = Terminated-append (lit "BYE") _ (omega arith) crlf-Terminated
Line-Terminated m (auth username name secret u n s) =
    Terminated-append (lit "AUTH ") _ (omega arith) (
      Terminated-append username _ (IdChar-NoReturn _ u.chars) (
        Terminated-append (lit " AS ") _ (omega arith) (
          Terminated-append name _ (Named-NoReturn name (inr n)) (
            Terminated-append (lit " USING ") _ (omega arith)
              (Terminated-append secret _ (IdChar-NoReturn _ s.chars) crlf-Terminated)))))
Line-Terminated m (join channel name _ c n) = Terminated-append (lit "JOIN ") _ (omega arith) (
    Terminated-append channel _ (IdChar-NoReturn _ c.chars) (
      Terminated-append (lit " AS ") _ (omega arith)
        (Terminated-append name _ (Named-NoReturn name n) crlf-Terminated)))
Line-Terminated m (message name content _ n c) =
    Terminated-append (lit "MSG FROM ") _ (omega arith) (
      Terminated-append name _ (Named-NoReturn name n) (
        Terminated-append (lit " IS ") _ (omega arith)
          (Terminated-append content _ (Printable-NoReturn _ c.chars) crlf-Terminated)))
Line-Terminated m (error name content n c) = Terminated-append (lit "ERR FROM ") _ (omega arith) (
    Terminated-append name _ (Named-NoReturn name n) (
      Terminated-append (lit " IS ") _ (omega arith)
        (Terminated-append content _ (Printable-NoReturn _ c.chars) crlf-Terminated)))

-- The bytes of all `send` calls, the first call first.
unfoldable pub bytes_sent : Log → Bytes
bytes_sent [] = []
bytes_sent (sent address m ∷ log) = bytes_sent log ++ m
bytes_sent (_ ∷ log) = bytes_sent log

-- What each call sends but for its last two bytes.
unfoldable pub texts_sent : Log → List Bytes
texts_sent [] = []
texts_sent (sent address m ∷ log) = texts_sent log ++ take (length m - 2) m ∷ []
texts_sent (_ ∷ log) = texts_sent log

take-crlf : (text : Bytes) → take (length (text ++ crlf) - 2) (text ++ crlf) ≡ text
take-crlf text =
    let e : length (text ++ crlf) - 2 ≡ length text = omega (arith, length-append text crlf) in
    rw e (take-append_self text crlf)

sent-unframe :
    (log : Log)
    → All SendsLine log
    → (bytes_sent log ≡ unframe (texts_sent log) []) × All Lacks (texts_sent log)
unfolding bytes_sent texts_sent
sent-unframe [] h = (refl, tt)
sent-unframe (sent address m ∷ log) (h, hs) =
    let (text, (t, e)) = Line-Terminated m h in
    let (before, lack) = sent-unframe log hs in
    let last : take (length m - 2) m ≡ text = ap (λ x. take (length x - 2) x) e ∙ take-crlf text in
    (
      ap (λ b. b ++ m) before
          ∙ ap (λ x. unframe (texts_sent log) [] ++ x) e
          ∙ unframe_tail (texts_sent log) [] (text ++ crlf)
          ∙ sym (unframe-append (texts_sent log) (text ∷ []) [])
          ∙ ap (λ x. unframe (texts_sent log ++ x ∷ []) []) (sym last),
      All-append Lacks (texts_sent log) _ lack (rw last (NoReturn-Lacks text t), tt),
    )
sent-unframe (_ ∷ log) (h, hs) = sent-unframe log hs

nil-Lacks : Lacks []
unfolding find_crlf
nil-Lacks = refl

-- The peer: it keeps every message, in order.
abbrev pub keep : Bytes → List Bytes → Run (List Bytes) ClientState
keep m ms = returns ready_for_input (ms ++ m ∷ [])

handle_all-keep :
    (ms kept : List Bytes) → handle_all keep ms [] kept ≡ returns ready_for_input ([], kept ++ ms)
handle_all-keep [] kept = rw (append-nil kept) refl
handle_all-keep (m ∷ ms) kept =
    handle_all-keep ms (kept ++ m ∷ []) ∙ rw (append_assoc kept (m ∷ []) ms) refl

-- At any point of a session of the TCP handler: where the bytes of all its `send` calls are framed as
-- the client frames what it receives, the messages are the texts of these calls, each without its
-- "\r\n", in order, and nothing is left in the buffer.
pub sent_stream_frames :
    (net : Network) {c : ClientState} {s : Tcp}
    → InSession net c s
    → drain_buffer keep (bytes_sent s.log) []
      ≡ some (returns ready_for_input ([], texts_sent s.log))
sent_stream_frames net {c} {s} r =
    let (e, lack) = sent-unframe s.log (InSession-SendsLine net r) in
    drain_buffer-unframe keep (bytes_sent s.log) (texts_sent s.log) [] [] e lack nil-Lacks
    ∙ ap some (handle_all-keep (texts_sent s.log) [])
