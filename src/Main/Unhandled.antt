-- ===== src/Main/Unhandled.antt =====
-- A run of the whole program with an empty protocol, for which there is no handler.
use ipk.Common.{ℕ, List, ◌∷◌, none, some, ◌≡◌, arith, Bytes}
use ipk.Config.{Config, Found}
use ipk.Interrupt.{polls_with}
use ipk.Main.{null, runs, main}
use ipk.Main.Program.{World, crashed, run_handler, run_main}
use ipk.Stream.{Events, ready, round, on_events, on_line, run_event_loop}
use ipk.Stream
use ipk.Udp.Received.{RecvFrom}

-- `poll` reports a line of the user that is not empty, or the end of the input, and nothing from the socket.
pub data Speaks : Events RecvFrom → Type 0 where
  says : {b : ℕ} {input : Bytes} → Speaks (ready none (some (some (b ∷ input))))
  ends : Speaks (ready none (some none))

-- The whole program, where the command line leads to the event loop with no handler: if the first
-- report of `poll` is a line of the user that is not empty, or the end of the input, a method is
-- called through the null pointer. The behaviour is undefined, also if signals came before.
pub speaking_crashes :
    (w : World) (found : List Found) (c : Config) (fd : ℕ) (signals : List ℕ)
    {events : Events RecvFrom} (more : List (List ℕ × Events RecvFrom))
    → main w.lookup found ≡ runs c fd null
    → Speaks events
    → w.udp_events ≡ (signals, events) ∷ more
    → run_main w found ≡ crashed
unfolding run_main run_handler Stream.start run_event_loop round polls_with on_events on_line
speaking_crashes w found c fd signals more m says e = rw (m, e) (ground arith)
speaking_crashes w found c fd signals more m ends e = rw (m, e) (ground arith)
