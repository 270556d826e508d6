-- ===== src/Main/Sends.antt =====
-- What the whole program sends.
use ipk.Common.{List, All}
use ipk.Config.{Config, Found}
use ipk.Main.{Started, exits, undefined, runs, main}
use ipk.Main.Program.{World, Program, Object, tcp, udp, no_object, run_started, run_main}
use ipk.Main.Sessions.{AfterSession, run_handler-RunsSession}
use ipk.Main.Outcomes.{OfHandler, RunsSession-OfHandler}
use ipk.Tcp.Answering.{InSession-SendsLine}
use ipk.Udp.Answering.{Reached-SendsWire}
use ipk.Tcp.Line.{SendsLine}
use ipk.Udp.Wire.{SendsWire}

-- A handler that has sent messages of its protocol only.
abbrev pub Proper : Object → Type 0
Proper (tcp c) = All SendsLine c.1.log
Proper (udp s) = All SendsWire s.log
Proper no_object = Unit

-- The same of the handler of a program that has ended or waits.
abbrev pub SendsProper : Program Object → Type 0
SendsProper = OfHandler Proper

AfterSession-Proper : (w : World) (c : Config) (o : Object) → AfterSession w c o → Proper o
AfterSession-Proper w c (tcp client) r = InSession-SendsLine w.net r
AfterSession-Proper w c (udp s) r = Reached-SendsWire w.net r
AfterSession-Proper w c no_object r = tt

-- For every command line and everything that the operating system reports: each message that the
-- handler of a program that has ended or waits has sent is, byte by byte, one of its protocol's, or
-- over UDP empty. An id has 1 to 20, a secret 1 to 128 letters, digits and dashes, a display name 1
-- to 20 and a content 1 to 1400 characters from 0x20 to 0x7e; the display name may be empty in
-- JOIN, MSG and ERR.
pub run_main-SendsProper : (w : World) (found : List Found) → SendsProper (run_main w found)
unfolding run_main
run_main-SendsProper w found = go (main w.lookup found)
  where
    go : (s : Started) → SendsProper (run_started w s)
    go (exits status) = tt
    go undefined = tt
    go (runs c fd h) =
        RunsSession-OfHandler Proper w c h _ (AfterSession-Proper w c)
          (run_handler-RunsSession w c h)
