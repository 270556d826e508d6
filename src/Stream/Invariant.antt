-- ===== src/Stream/Invariant.antt =====
-- A property of the loop's variables, through any run of the event loop.
use ipk.Common.{◌≡◌, refl, if_elim_eq, Bool, true, false, List, [], ◌∷◌, All}
use ipk.Protocol.{Run, returns, exits, undefined}
use ipk.Stream.{
  ProtocolHandler, Poll, Loop, Course, polls, closes, fails, crashes, is_over, after_round, round,
  run_event_loop,
}

-- A property of the loop's variables, and what is said of undefined behaviour: `Unit` if it may come,
-- and `⊥` if it may not.
module _ {H I : Type 0} (p : ProtocolHandler H I) (P : Loop H → Type 0) (U : Type 0) where
  abbrev pub RoundKeeps : Run (Loop H) (Unit {0}) → Type 0
  RoundKeeps (returns _ l) = P l
  RoundKeeps (exits l) = Unit
  RoundKeeps undefined = U

  abbrev pub CourseKeeps : Course H → Type 0
  CourseKeeps (polls l) = (is_over l.state ≡ false) × P l
  CourseKeeps (closes l) = (is_over l.state ≡ true) × P l
  CourseKeeps fails = Unit
  CourseKeeps crashes = U

  -- `C` is what the returns of `poll` are like.
  pub run_event_loop-CourseKeeps :
      (C : Poll I → Type 0)
      → ((poll : Poll I) (l : Loop H)
          → is_over l.state ≡ false
          → C poll
          → P l
          → RoundKeeps (round p poll l))
      → (pollings : List (Poll I)) (l : Loop H) → All C pollings
      → P l
      → CourseKeeps (run_event_loop p pollings l)
  unfolding run_event_loop
  run_event_loop-CourseKeeps C keep [] l c h =
      if_elim_eq CourseKeeps (is_over l.state) (λ e. (e, h)) (λ e. (e, h))
  run_event_loop-CourseKeeps C keep (poll ∷ more) l (c, cs) h =
      split (λ m g. run_event_loop-CourseKeeps C keep more m cs g) (is_over l.state) refl
    where
      Rest : Type 0
      Rest = (m : Loop H) → P m → CourseKeeps (run_event_loop p more m)

      after :
          Rest
          → (r : Run (Loop H) (Unit {0})) → RoundKeeps r
          → CourseKeeps (after_round (run_event_loop p more) r)
      after rest (returns _ m) g = rest m g
      after rest (exits m) g = tt
      after rest undefined g = g

      split :
          Rest
          → (b : Bool) → is_over l.state ≡ b
          → CourseKeeps (elim b [
            | true ↦ closes l
            | false ↦ after_round (run_event_loop p more) (round p poll l)
          ])
      split rest true e = (e, h)
      split rest false e = after rest (round p poll l) (keep poll l e c h)
