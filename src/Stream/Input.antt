-- ===== src/Stream/Input.antt =====
-- When the event loop reads the standard input, and how often it retransmits at most.
use ipk.Common.{
  All, ℕ, ◌≤◌, Bool, true, false, ◌&&◌, List, [], ◌∷◌, Option, none, ◌≡◌, arith, Bytes,
}
use ipk.Protocol.{returns}
use ipk.Stream.Invariant.{RoundKeeps, CourseKeeps, run_event_loop-CourseKeeps}
use ipk.Stream.{
  ProtocolHandler, Poll, ready, Loop, start, blocks_input, round, Course, run_event_loop,
}

All-Unit : {A : Type 0} (xs : List A) → All (λ _. Unit {0}) xs
All-Unit [] = tt
All-Unit (x ∷ xs) = (tt, All-Unit xs)

module _ {H I : Type 0} (p : ProtocolHandler H I) where
  -- While a confirmation or a reply is awaited, a ready standard input changes nothing, unless the
  -- socket is ready too or the interrupt is new.
  round_blocked :
      (l : Loop H) (line : Option (Option Bytes)) (b : Bool)
      → blocks_input l.state ≡ true
      → (b && l.first_time_interrupted) ≡ false
      → round p (record { interrupted = b; events = ready none line }) l ≡ returns tt l
  unfolding round
  round_blocked l line b h f = ground arith

  abbrev Bounded : ℕ → Loop H → Type 0
  Bounded n l = (l.retry_count ≤ n) × (l.retrans ≡ n)

  round-Bounded :
      (n : ℕ) (poll : Poll I) (l : Loop H)
      → Bounded n l
      → RoundKeeps p (Bounded n) Unit (round p poll l)
  unfolding round
  round-Bounded n poll l h = ground arith

  abbrev pub BoundedCourse : Course H → ℕ → Type 0
  BoundedCourse c n = CourseKeeps p (λ l. (l.retry_count ≤ n) × (l.retrans ≡ n)) Unit c

  -- Whatever `poll` returns, the retransmissions that are left never exceed the configured number.
  retry_count_bounded :
      (n : ℕ) (h : H) (pollings : List (Poll I))
      → BoundedCourse (run_event_loop p pollings (start n h)) n
  unfolding start
  retry_count_bounded n h pollings =
      run_event_loop-CourseKeeps p (Bounded n) Unit (λ _. Unit)
        (λ poll l _ _. round-Bounded n poll l) pollings _ (All-Unit pollings) (omega arith)
