-- ===== src/Main/Sizes.antt =====
-- How long the messages are that the whole program sends.
use ipk.Common.{◌≤◌, inl, inr, arith, ℕ, List, length, All-imp, All}
use ipk.Protocol.{Effect, sent}
use ipk.Config.{Found}
use ipk.Main.Program.{World, Program, Object, tcp, udp, no_object, run_main}
use ipk.Main.Outcomes.{OfHandler, OfHandler-imp}
use ipk.Main.Sends.{Proper, run_main-SendsProper}
use ipk.Tcp.Line.{SendsLine}
use ipk.Tcp.Size.{Line-size}
use ipk.Udp.Wire.{SendsWire}
use ipk.Udp.Size.{Wire-size}

-- Of the effects, what is sent has at most so many bytes.
abbrev pub AtMost : ℕ → Effect → Type 0
AtMost n (sent address m) = length m ≤ n
AtMost n _ = Unit

abbrev pub Short : Object → Type 0
Short (tcp c) = All (AtMost 1435) c.1.log
Short (udp s) = All (AtMost 1425) s.log
Short no_object = Unit

-- The same of the handler of a program that has ended or waits.
abbrev pub SendsShort : Program Object → Type 0
SendsShort = OfHandler Short

SendsLine-AtMost : (e : Effect) → SendsLine e → AtMost 1435 e
SendsLine-AtMost (sent address m) h = Line-size m h
SendsLine-AtMost _ h = tt

SendsWire-AtMost : (e : Effect) → SendsWire e → AtMost 1425 e
SendsWire-AtMost (sent address m) (inl e) = rw e (omega arith)
SendsWire-AtMost (sent address m) (inr h) = Wire-size m h
SendsWire-AtMost _ h = tt

Proper-Short : (o : Object) → Proper o → Short o
Proper-Short (tcp c) h = All-imp SendsLine (AtMost 1435) c.1.log SendsLine-AtMost h
Proper-Short (udp s) h = All-imp SendsWire (AtMost 1425) s.log SendsWire-AtMost h
Proper-Short no_object h = tt

-- For every command line and everything that the operating system reports: what the handler of a
-- program that has ended or waits has sent has at most 1435 bytes a message over TCP, and 1425 bytes
-- over UDP.
pub run_main-SendsShort : (w : World) (found : List Found) → SendsShort (run_main w found)
run_main-SendsShort w found =
    OfHandler-imp Proper Short _ Proper-Short (run_main-SendsProper w found)
