-- ===== src/Main/Defined.antt =====
-- The whole program over UDP, and undefined behaviour.
use ipk.Common.{ℕ, Bool, false, List, [], ◌∷◌, ◌≡◌, ◌≢◌, All, All-imp, none, some, Bytes}
use ipk.Text.{Ascii}
use ipk.Config.{Config, Found}
use ipk.Fsm.{initial}
use ipk.Fsm.Ongoing.{OngoingOf, unused}
use ipk.Interrupt.{polls_with, handle_signals}
use ipk.Main.{over_udp, runs, main}
use ipk.Main.Program.{World, crashed, Object, after_loop, udp, of_handler, run_handler, run_main}
use ipk.Protocol.{ClientState}
use ipk.Stream.{
  ProtocolHandler, Events, failed, timeout, ready, Course, polls, closes, fails, crashes, start,
}
use ipk.Stream.Invariant.{CourseKeeps}
use ipk.Stream.Methods.{Reported, run_event_loop-Methods}
use ipk.Udp.Handler.{new_udp}
use ipk.Udp.Received.{RecvFrom}
use ipk.Udp.Definedness.{AsciiDatagram}
use ipk.Udp.Client.{udp_handler}
use ipk.Udp.Loop.{ProperLine, ProperDatagram, going}

-- What `poll` reports is kept beside the flag.
pub polls_with-All :
    {I : Type 0} (P : Events I → Type 0) (interrupted : Bool) (reports : List (List ℕ × Events I))
    → All (λ report. P report.1) reports
    → All (λ poll. P poll.events) (polls_with interrupted reports)
unfolding polls_with
polls_with-All P interrupted [] h = tt
polls_with-All P interrupted ((signals, events) ∷ more) (h, hs) =
    (h, polls_with-All P (handle_signals signals interrupted) more hs)

after_loop-defined :
    {H I : Type 0} (p : ProtocolHandler H I) (Q : ClientState → H → Type 0) (f : H → Object)
    (course : Course H)
    → CourseKeeps p (λ l. Q l.state l.handler) ⊥ course
    → of_handler f (after_loop course) ≢ crashed
after_loop-defined p Q f (polls l) h e = cc e
after_loop-defined p Q f (closes l) h e = cc e
after_loop-defined p Q f fails h e = cc e
after_loop-defined p Q f crashes h e = h

-- A line with no byte above 127 that is no /rename with a valid display name, and a datagram with no
-- such byte in its text that has its first bytes.
abbrev pub SafeLine : Bytes → Type 0
SafeLine m = ProperLine m × Ascii m

abbrev pub SafeDatagram : RecvFrom → Type 0
SafeDatagram d = ProperDatagram d × AsciiDatagram d

safe_report :
    (e : Events RecvFrom) → Reported SafeLine SafeDatagram e → Reported ProperLine ProperDatagram e
safe_report failed h = tt
safe_report timeout h = tt
safe_report (ready (some d) typed) h = h.0
safe_report (ready none none) h = tt
safe_report (ready none (some none)) h = tt
safe_report (ready none (some (some m))) h = h.0

-- The whole program, where the command line leads to the event loop with the UDP handler. If the
-- lines that the user types and the texts of the datagrams have no byte above 127, none of these
-- lines is a /rename with a valid display name, and every datagram has a first byte, and a whole id
-- where that byte says CONFIRM, the program meets no undefined behaviour: whatever else the lines
-- and the datagrams are, in whatever order they, timeouts, failures and signals come, and whichever
-- sends fail.
pub run_main-defined :
    (w : World) (found : List Found) (c : Config) (fd : ℕ)
    → main w.lookup found ≡ runs c fd over_udp
    → All (λ report. Reported SafeLine SafeDatagram report.1) w.udp_events
    → run_main w found ≢ crashed
unfolding run_main run_handler start new_udp initial
run_main-defined w found c fd m proper = rw m (
    after_loop-defined (udp_handler w.net) (λ _ s. OngoingOf s.fsm) udp _
      (run_event_loop-Methods (udp_handler w.net) (λ _ s. OngoingOf s.fsm) ⊥ _ _ (going w.net) _ _
        (polls_with-All (Reported ProperLine ProperDatagram) false w.udp_events (
          All-imp (λ r. Reported SafeLine SafeDatagram r.1)
            (λ r. Reported ProperLine ProperDatagram r.1) w.udp_events (λ r h. safe_report r.1 h)
            proper))
        unused))
