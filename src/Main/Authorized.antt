-- ===== src/Main/Authorized.antt =====
-- What the whole program has heard before it sends JOIN or MSG over UDP.
use ipk.Common.{ℕ, List, All, ◌≡◌, ◌⊎◌, lit}
use ipk.Config.{Config}
use ipk.Main.Program.{World, Object, tcp, udp, no_object}
use ipk.Main.Reports.{Typed, Arrived}
use ipk.Main.Sessions.{server_of}
use ipk.Stream.{Events}
use ipk.Stream.Methods.{Methods}
use ipk.Udp.Authorized.{Played, LoggedIn}
use ipk.Udp.Handler.{Udp}
use ipk.Udp.Received.{RecvFrom}
use ipk.Udp.Session as Session
use ipk.Udp.Session.{Input, line, socket}
use ipk.Udp.Wire.{SendsWireOf}

-- An input that comes from these reports: a line that the user typed, /exit, which the loop passes at an
-- interrupt and at the end of the standard input, a result of `recvfrom`, or a timeout.
abbrev pub From : List (List ℕ × Events RecvFrom) → Input → Type 0
From reports (line m) = Typed reports m ⊎ (m ≡ lit "/exit")
From reports (socket d) = Arrived reports d
From reports Session.timeout = Unit

-- Inputs from the reports have led to that state.
abbrev pub Heard : World → Config → Udp → Type 0
Heard w c s =
    (is : List Input) × (Played w.net (server_of w c) is s
      × (All (From w.udp_events) is × All (SendsWireOf (LoggedIn is)) s.log))

abbrev Traced : World → Config → Udp → Type 0
Traced w c s = (is : List Input) × (Played w.net (server_of w c) is s × All (From w.udp_events) is)

module _ (w : World) (c : Config) where
  -- The same of the handler of a program that has ended or waits.
  abbrev pub Authorized : Object → Type 0
  Authorized (udp s) = Heard w c s
  Authorized (tcp client) = ⊥
  Authorized no_object = ⊥
