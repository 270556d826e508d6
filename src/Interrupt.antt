-- ===== src/Interrupt.antt =====
-- interruptSignal.h and interruptSignal.cpp: the flag `interrupted`, and when the event loop sees it.
use ipk.Common.{ℕ, Bool, true, List, [], ◌∷◌, ◌==◌, if◌then◌else◌}
use ipk.Stream.{Poll, Events}

-- SIGINT
abbrev pub sigint : ℕ
sigint = 2

unfoldable pub signal_handler : ℕ → Bool → Bool
signal_handler signal interrupted = if signal == sigint then true else interrupted

-- Some signals, one after the other.
unfoldable pub handle_signals : List ℕ → Bool → Bool
unfolding signal_handler
handle_signals [] interrupted = interrupted
handle_signals (signal ∷ signals) interrupted =
    handle_signals signals (signal_handler signal interrupted)

-- The returns of `poll`, each with the signals that came since the one before.
unfoldable pub polls_with : {I : Type 0} → Bool → List (List ℕ × Events I) → List (Poll I)
unfolding handle_signals
polls_with interrupted [] = []
polls_with interrupted ((signals, events) ∷ more) =
    let now = handle_signals signals interrupted in
    record { interrupted = now; events = events } ∷ polls_with now more
