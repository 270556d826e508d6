-- ===== src/Main/Outcomes.antt =====
-- What a program leaves behind, and properties of its handler at the end of a session.
use ipk.Config.{Config}
use ipk.Main.{Handler}
use ipk.Main.Program.{World, Program, exited, ended, waits, crashed, Object, tcp, udp, no_object}
use ipk.Main.Sessions.{InSession, AfterSession, RunsSession}
use ipk.Protocol.{over}
use ipk.Tcp.Session.{ongoing}

-- A property of the handler of a program that has ended or waits.
abbrev pub OfHandler : (Object → Type 0) → Program Object → Type 0
OfHandler P (exited status) = Unit
OfHandler P (ended o) = P o
OfHandler P (waits o) = P o
OfHandler P crashed = Unit

InSession-AfterSession :
    (w : World) (c : Config) (o : Object) → InSession w c o → AfterSession w c o
InSession-AfterSession w c (tcp client) r = ongoing over r
InSession-AfterSession w c (udp s) r = r
InSession-AfterSession w c no_object r = tt

-- What holds at any point of a session holds of the handler.
pub RunsSession-OfHandler :
    (P : Object → Type 0) (w : World) (c : Config) (h : Handler) (p : Program Object)
    → ((o : Object) → AfterSession w c o → P o)
    → RunsSession w c h p
    → OfHandler P p
RunsSession-OfHandler P w c h (exited status) k r = tt
RunsSession-OfHandler P w c h (ended o) k r = k o r
RunsSession-OfHandler P w c h (waits o) k r = k o (InSession-AfterSession w c o r)
RunsSession-OfHandler P w c h crashed k r = tt

-- A property of the handler implies another one.
pub OfHandler-imp :
    (P Q : Object → Type 0) (p : Program Object)
    → ((o : Object) → P o → Q o)
    → OfHandler P p
    → OfHandler Q p
OfHandler-imp P Q (exited status) f h = tt
OfHandler-imp P Q (ended o) f h = f o h
OfHandler-imp P Q (waits o) f h = f o h
OfHandler-imp P Q crashed f h = tt
