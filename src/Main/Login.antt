-- ===== src/Main/Login.antt =====
-- What the whole program has heard before it sends JOIN or MSG over TCP.
use ipk.Common.{ℕ, List, [], ◌∷◌, ◌++◌, All, ◌≡◌, ◌⊎◌, Bytes, lit}
use ipk.Text.Crlf.{Lacks}
use ipk.Config.{Config}
use ipk.Main.Program.{World, Object, tcp, udp, no_object}
use ipk.Main.Reports.{Typed, Arrived}
use ipk.Protocol.{ClientState}
use ipk.Stream.{Events}
use ipk.Tcp.Authorized.{Comes, LoggedIn}
use ipk.Tcp.Client.{Client, Incoming, Last}
use ipk.Tcp.Heard.{Goes}
use ipk.Tcp.Line.{SendsLineOf}
use ipk.Tcp.Session.{Input, line, message, failure, end_of_stream}

-- A buffer that is filled with bytes that `poll` reported on the socket, and from which text up to a
-- "\r\n" is taken.
pub data Filled (reports : List (List ℕ × Events Incoming)) : Bytes → Type 0 where
  empty : Filled reports []
  more :
      (i : Incoming) (b buffer : Bytes)
      → Arrived reports i
      → i.last ≡ Last.bytes b
      → Filled reports buffer
      → Filled reports (buffer ++ b)
  less : (m rest : Bytes) → Lacks m → Filled reports (m ++ (13 ∷ 10 ∷ rest)) → Filled reports rest

-- An input that comes from these reports: a line that the user typed, /exit, which the loop passes at an
-- interrupt and at the end of the standard input, a text that such a buffer begins with, up to its first
-- "\r\n", a failure of `recv`, or the end of the stream.
abbrev pub From : List (List ℕ × Events Incoming) → Input → Type 0
From reports (line m) = Typed reports m ⊎ (m ≡ lit "/exit")
From reports (message m) = Lacks m × ((rest : Bytes) × Filled reports (m ++ (13 ∷ 10 ∷ rest)))
From reports failure = Unit
From reports end_of_stream = Unit

-- Inputs from the reports have led to that object, or with the last of them to its end, and it has sent
-- JOIN and MSG only if they have the login.
abbrev pub LetIn : World → Object → Type 0
LetIn w (tcp client) =
    (is : List Input) × (Comes w.net is client.1
      × (All (From w.tcp_events) is × All (SendsLineOf (LoggedIn is)) client.1.log))
LetIn w (udp s) = ⊥
LetIn w no_object = ⊥

module _ (w : World) where
  abbrev Kept : ClientState → Client → Type 0
  Kept c client =
      Goes w.net (From w.tcp_events) (Filled w.tcp_events) c client.1 × Filled w.tcp_events client.0
