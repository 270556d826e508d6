-- ===== src/Tcp/Framing.antt =====
-- The messages that `process_server_message` makes of the byte stream.
use ipk.Common.{
  ℕ, zero, suc, ◌<◌, List, [], ◌∷◌, ◌++◌, Option, some, ◌≡◌, refl, arith, Bytes, length, All,
  All-append, ◌∙◌, ap, sym,
}
use ipk.Text.Crlf.{
  Lacks, find_crlf-append, take-append_self, drop-append_crlf, unframe, unframe-append,
  unframe_tail, length-le-unframe, framing,
}
use ipk.Protocol.{ClientState, ready_for_input, Run, returns, exits, undefined}
use ipk.Tcp.Receive.{drain, proceed}

module _ {S : Type 0} (handle : Bytes → S → Run S ClientState) where
  abbrev pub proceed_all :
      (S → Run (Bytes × S) ClientState) → Bytes → Run S ClientState → Run (Bytes × S) ClientState
  proceed_all again rest undefined = undefined
  proceed_all again rest (exits t) = exits (rest, t)
  proceed_all again rest (returns ready_for_input t) = again t
  proceed_all again rest (returns state t) = returns state (rest, t)

  -- The specification: the messages are handled in order, until one does not lead to
  -- READY_FOR_INPUT. What is not handled stays.
  abbrev pub handle_all : List Bytes → Bytes → S → Run (Bytes × S) ClientState
  handle_all [] tail s = returns ready_for_input (tail, s)
  handle_all (m ∷ ms) tail s = proceed_all (handle_all ms tail) (unframe ms tail) (handle m s)

  proceed-proceed_all :
      (again : S → Option (Run (Bytes × S) ClientState)) (spec : S → Run (Bytes × S) ClientState)
      (rest : Bytes)
      → ((t : S) → again t ≡ some (spec t))
      → (r : Run S ClientState) → proceed again rest r ≡ some (proceed_all spec rest r)
  unfolding proceed
  proceed-proceed_all again spec rest h undefined = refl
  proceed-proceed_all again spec rest h (exits t) = refl
  proceed-proceed_all again spec rest h (returns ready_for_input t) = h t
  proceed-proceed_all again spec rest h (returns _ t) = refl

  -- The loop, on a buffer that is made of these messages and this tail, with enough fuel, does as the specification.
  pub drain-unframe :
      (fuel : ℕ) (ms : List Bytes) (tail : Bytes) (s : S)
      → length ms < fuel
      → All Lacks ms
      → Lacks tail
      → drain handle fuel (unframe ms tail) s ≡ some (handle_all ms tail s)
  unfolding drain
  drain-unframe zero ms tail s f h t = absurd (omega arith)
  drain-unframe (suc fuel) [] tail s f h t = rw (t, drain)
  drain-unframe (suc fuel) (m ∷ ms) tail s f (h, hs) t =
      rw (find_crlf-append m (unframe ms tail) h, drain)
        (rw (take-append_self m _, drop-append_crlf m _)
          (proceed-proceed_all (drain handle fuel (unframe ms tail)) (handle_all ms tail) _
            (λ t'. drain-unframe fuel ms tail t' (omega arith) hs t) (handle m s)))

  -- The call that `process_server_message` makes, on the whole buffer.
  abbrev pub drain_buffer : Bytes → S → Option (Run (Bytes × S) ClientState)
  drain_buffer buffer = drain handle (suc (length buffer)) buffer

  pub drain_buffer-unframe :
      (b : Bytes) (ms : List Bytes) (tail : Bytes) (s : S)
      → b ≡ unframe ms tail
      → All Lacks ms
      → Lacks tail
      → drain_buffer b s ≡ some (handle_all ms tail s)
  drain_buffer-unframe b ms tail s e h t =
      rw e (drain-unframe _ ms tail s (omega (arith, length-le-unframe ms tail)) h t)

  -- The loop always ends: the fuel that it is given is enough for every buffer.
  pub drain_buffer-total :
      (b : Bytes) (s : S) → (r : Run (Bytes × S) ClientState) × (drain_buffer b s ≡ some r)
  drain_buffer-total b s =
      let f = framing b in
      (
        handle_all f.messages f.tail s,
        drain_buffer-unframe b _ _ s f.frames f.messages_lack f.tail_lacks,
      )

  handle_all-append :
      (ms ns : List Bytes) (tail tail' rest : Bytes) (s t : S)
      → handle_all ms tail s ≡ returns ready_for_input (rest, t)
      → (tail ≡ rest) × (handle_all (ms ++ ns) tail' s ≡ handle_all ns tail' t)
  handle_all-append [] ns tail tail' rest s t h = ground arith
  handle_all-append (m ∷ ms) ns tail tail' rest s t h =
      go (handle_all-append ms ns tail tail' rest) (handle m s) h
    where
      go :
          ((u t : S)
            → handle_all ms tail u ≡ returns ready_for_input (rest, t)
            → (tail ≡ rest) × (handle_all (ms ++ ns) tail' u ≡ handle_all ns tail' t))
          → (r : Run S ClientState)
          → proceed_all (handle_all ms tail) (unframe ms tail) r ≡ returns ready_for_input (rest, t)
          → (tail ≡ rest)
            × (proceed_all (handle_all (ms ++ ns) tail') (unframe (ms ++ ns) tail') r
                ≡ handle_all ns tail' t)
      go ih undefined e = cc
      go ih (exits u) e = cc
      go ih (returns ready_for_input u) e = ih u t e
      go ih (returns _ u) e = cc

  -- How the stream is cut into `recv` calls does not matter: where all complete messages of the
  -- buffer have led to READY_FOR_INPUT, the next bytes are handled as if both parts had come at once.
  pub drain_buffer-append :
      (b more rest : Bytes) (s t : S)
      → drain_buffer b s ≡ some (returns ready_for_input (rest, t))
      → drain_buffer (b ++ more) s ≡ drain_buffer (rest ++ more) t
  drain_buffer-append b more rest s t h =
      let f = framing b in
      let g = framing (rest ++ more) in
      let whole =
        sym (drain_buffer-unframe b f.messages f.tail s f.frames f.messages_lack f.tail_lacks)
        ∙ h in
      let (e, later) = handle_all-append f.messages g.messages f.tail g.tail rest s t (cc) in
      let joined : b ++ more ≡ unframe (f.messages ++ g.messages) g.tail =
        ap (λ x. x ++ more) f.frames
        ∙ unframe_tail f.messages f.tail more
        ∙ ap (λ x. unframe f.messages (x ++ more)) e
        ∙ ap (unframe f.messages) g.frames
        ∙ sym (unframe-append f.messages g.messages g.tail) in
      drain_buffer-unframe (b ++ more) _ _ s joined
        (All-append Lacks f.messages g.messages f.messages_lack g.messages_lack) g.tail_lacks
      ∙ ap some later
      ∙ sym (drain_buffer-unframe (rest ++ more) _ _ t g.frames g.messages_lack g.tail_lacks)
