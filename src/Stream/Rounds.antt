-- ===== src/Stream/Rounds.antt =====
-- One round of the event loop, from what the handler's method returns.
use ipk.Common.{false, [], ◌∷◌, none, some, ◌≡◌, ◌≢◌, refl, arith, Bytes, if◌then◌else◌}
use ipk.Protocol.{ClientState, ready_for_input, returns}
use ipk.Stream.{ProtocolHandler, Loop, ready, awaits_confirmation, round}

module _ {H I : Type 0} (p : ProtocolHandler H I) where
  -- A line that is not empty, where input is not blocked.
  pub round-line :
      (text : Bytes) (l : Loop H) (state : ClientState) (h : H)
      → l.state ≡ ready_for_input
      → text ≢ []
      → p.process_user_input text l.handler ≡ returns state h
      → round p (record { interrupted = false; events = ready none (some (some text)) }) l
        ≡ returns tt (record l { state = state; handler = h })
  unfolding round
  round-line [] l state h r n e = absurd (n refl)
  round-line (c ∷ text) l state h r n e = ground (arith, e)

  -- Something from the socket.
  pub round-received :
      (i : I) (l : Loop H) (state : ClientState) (h : H)
      → p.process_server_message i l.handler ≡ returns state h
      → round p (record { interrupted = false; events = ready (some i) none }) l
        ≡ returns tt (record l {
          state = state;
          retry_count = if awaits_confirmation state then l.retry_count else l.retrans;
          handler = h;
        })
  unfolding round
  round-received i l state h e = ground (arith, e)
