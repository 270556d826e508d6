-- ===== src/Stream/Retransmission.antt =====
-- What the event loop does while a confirmation is awaited and nothing comes.
use ipk.Common.{ℕ, zero, suc, ◌+◌, false, List, [], ◌∷◌, ◌≡◌, refl, ap, ◌∙◌, arith}
use ipk.Protocol.{waiting_for_confirmation, over, returns}
use ipk.Stream.{is_over, ProtocolHandler, Poll, timeout, Loop, round, closes, run_event_loop}

abbrev pub silence : {I : Type 0} → Poll I
silence = record { interrupted = false; events = timeout }

-- So many returns of `poll` by its timeout, and then others.
abbrev pub silences : {I : Type 0} → ℕ → List (Poll I) → List (Poll I)
silences zero more = more
silences (suc n) more = silence ∷ silences n more

silences_last :
    {I : Type 0} (n : ℕ) (more : List (Poll I))
    → silences (suc n) more ≡ silences n (silence ∷ more)
silences_last zero more = refl
silences_last (suc n) more = ap (◌∷◌ silence) (silences_last n more)

module _ {H I : Type 0} (p : ProtocolHandler H I) where
  abbrev pub resends : ℕ → H → H
  resends zero h = h
  resends (suc n) h = resends n (p.resend_last_message h)

  round-silence :
      (l : Loop H) (k : ℕ)
      → l.state ≡ waiting_for_confirmation
      → l.retry_count ≡ suc k
      → round p silence l
        ≡ returns tt (record l { handler = p.resend_last_message l.handler; retry_count = k })
  unfolding round
  round-silence l k s r = ground arith

  pub run_event_loop_step :
      (poll : Poll I) (more : List (Poll I)) (l m : Loop H)
      → is_over l.state ≡ false
      → round p poll l ≡ returns tt m
      → run_event_loop p (poll ∷ more) l ≡ run_event_loop p more m
  unfolding run_event_loop
  run_event_loop_step poll more l m s e = rw (s, run_event_loop) (rw e)

  -- Each silence up to the retry count makes one retransmission, and nothing else.
  pub run_event_loop-silences :
      (n k : ℕ) (l : Loop H) (more : List (Poll I))
      → l.state ≡ waiting_for_confirmation
      → l.retry_count ≡ n + k
      → run_event_loop p (silences n more) l
        ≡ run_event_loop p more (record l { handler = resends n l.handler; retry_count = k })
  run_event_loop-silences zero k l more s r =
      let e : l.retry_count ≡ k = omega arith in
      ap (λ c. run_event_loop p more (record l { retry_count = c })) e
  run_event_loop-silences (suc n) k l more s r =
      run_event_loop_step silence (silences n more) l _ (rw s)
        (round-silence l (n + k) s (omega arith))
      ∙ run_event_loop-silences n k _ more s refl

  round_exhausted :
      (l : Loop H)
      → l.state ≡ waiting_for_confirmation
      → l.retry_count ≡ 0
      → round p silence l ≡ returns tt (record l { state = over })
  unfolding round
  round_exhausted l s r = ground arith

  pub run_event_loop_over :
      (more : List (Poll I)) (l : Loop H) → l.state ≡ over → run_event_loop p more l ≡ closes l
  unfolding run_event_loop
  run_event_loop_over [] l s = simp s
  run_event_loop_over (poll ∷ more) l s = simp (s, run_event_loop)

  -- One more silence ends the client: it has made as many retransmissions as the retry count allowed.
  pub run_event_loop-exhausted :
      (n : ℕ) (l : Loop H) (more : List (Poll I))
      → l.state ≡ waiting_for_confirmation
      → l.retry_count ≡ n
      → run_event_loop p (silences (suc n) more) l
        ≡ closes (record l { state = over; handler = resends n l.handler; retry_count = 0 })
  run_event_loop-exhausted n l more s r =
      ap (λ polled. run_event_loop p polled l) (silences_last n more)
      ∙ run_event_loop-silences n 0 l (silence ∷ more) s (omega arith)
      ∙ run_event_loop_step silence more _ _ (rw s) (round_exhausted _ s refl)
      ∙ run_event_loop_over more _ refl
