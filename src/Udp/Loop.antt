-- ===== src/Udp/Loop.antt =====
-- The event loop with the UDP handler, over any returns of `poll`.
use ipk.Common.{ℕ, Bool, true, false, ◌≡◌, refl, sym, Bytes, lit, bytes_eq}
use mathlib.Core.Path.{subst}
use ipk.Text.{find, before, to_upper}
use ipk.Fsm.Ongoing.{OngoingOf}
use ipk.Protocol.{ClientState, Network, Run, returns, exits, undefined}
use ipk.Stream.Methods.{CallKeeps, Methods}
use ipk.Udp.Handler.{process_user_input, Udp, resend_last_message}
use ipk.Udp.Received.{RecvFrom, failed, datagram, process_server_message}
use ipk.Udp.Client.{udp_handler}
use ipk.Udp.Session.{line, socket, timeout, input, Reached, next}
use ipk.Udp.Definedness.{Mishap, undefined-Mishap}
use ipk.Udp.Cases.{truncated, renames}
use ipk.Udp.Outcome.{send_message-fsm}
use ipk.Udp.Safety.{GoesOn, process_user_input-GoesOn, process_received-GoesOn, held-GoesOn}

-- A line that is no /rename with a valid display name, and a datagram that has its first bytes.
abbrev pub ProperLine : Bytes → Type 0
ProperLine m = renames m false ≡ false

abbrev pub ProperDatagram : RecvFrom → Type 0
ProperDatagram failed = Unit
ProperDatagram (datagram from m) = truncated m ≡ false

renames_later : (m : Bytes) (b : Bool) → renames m false ≡ false → renames m b ≡ false
renames_later m true h = refl
renames_later m false h = h

exit-ProperLine : ProperLine (lit "/exit")
unfolding lit bytes_eq find before to_upper
exit-ProperLine = refl

module _ (net : Network) where
  GoesOn-CallKeeps :
      (r : Run Udp ClientState)
      → GoesOn r
      → CallKeeps (udp_handler net) (λ _ s. OngoingOf s.fsm) ⊥ r
  GoesOn-CallKeeps (returns _ s) h = h
  GoesOn-CallKeeps (exits s) h = absurd h
  GoesOn-CallKeeps undefined h = h

  server_goes_on :
      (d : RecvFrom) (s : Udp)
      → ProperDatagram d
      → OngoingOf s.fsm
      → GoesOn (process_server_message net d s)
  unfolding process_server_message
  server_goes_on failed s c h = h
  server_goes_on (datagram from m) s c h =
      held-GoesOn _ (process_received-GoesOn net (record s { server_address = from }) h m c)

  resend_last_message-OngoingOf :
      (s : Udp) → OngoingOf s.fsm → OngoingOf (resend_last_message net s).fsm
  unfolding resend_last_message
  resend_last_message-OngoingOf s h =
      subst OngoingOf (sym (send_message-fsm net s.last_message s)) h

  user_goes_on :
      (m : Bytes) (s : Udp) → ProperLine m → OngoingOf s.fsm → GoesOn (process_user_input net m s)
  user_goes_on m s c h =
      process_user_input-GoesOn net s h m (renames_later m s.error_while_waiting c)

  -- Proper inputs keep the machine going, and meet no undefined behaviour.
  pub going : Methods (udp_handler net) (λ _ s. OngoingOf s.fsm) ⊥ ProperLine ProperDatagram
  going = record {
    on_server = λ _ d s _ c h. GoesOn-CallKeeps _ (server_goes_on d s c h);
    on_user = λ _ m s _ _ c h. GoesOn-CallKeeps _ (user_goes_on m s c h);
    on_exit = λ _ s _ h. GoesOn-CallKeeps _ (user_goes_on (lit "/exit") s exit-ProperLine h);
    on_timeout = resend_last_message-OngoingOf;
    on_give_up = λ s h. h;
  }

  -- What a call returns and the state that it leaves, in a session.
  abbrev pub InSession : ℕ → ClientState → Udp → Type 0
  InSession address c s = Reached net address s

  server_next :
      (address : ℕ) (d : RecvFrom) (s : Udp)
      → Reached net address s
      → (r : Run Udp ClientState) → process_server_message net d s ≡ r
      → CallKeeps (udp_handler net) (InSession address) (Mishap net address) r
  unfolding input
  server_next address d s h (returns c t) e = next (socket d) h (rw (e, input) refl)
  server_next address d s h (exits t) e = tt
  server_next address d s h undefined e = undefined-Mishap net (socket d) h (rw (e, input) refl)

  user_next :
      (address : ℕ) (m : Bytes) (s : Udp)
      → Reached net address s
      → (r : Run Udp ClientState) → process_user_input net m s ≡ r
      → CallKeeps (udp_handler net) (InSession address) (Mishap net address) r
  unfolding input
  user_next address m s h (returns c t) e = next (line m) h (rw (e, input) refl)
  user_next address m s h (exits t) e = tt
  user_next address m s h undefined e = undefined-Mishap net (line m) h (rw (e, input) refl)

  timeout_next :
      (address : ℕ) (s : Udp)
      → Reached net address s
      → Reached net address (resend_last_message net s)
  unfolding input
  timeout_next address s h = next timeout h refl

  -- Every call of the loop is an input of a session.
  pub sessions :
      (address : ℕ)
      → Methods (udp_handler net) (InSession address) (Mishap net address) (λ _. Unit) (λ _. Unit)
  sessions address = record {
    on_server = λ _ d s _ _ h. server_next address d s h _ refl;
    on_user = λ _ m s _ _ _ h. user_next address m s h _ refl;
    on_exit = λ _ s _ h. user_next address _ s h _ refl;
    on_timeout = timeout_next address;
    on_give_up = λ s h. h;
  }
