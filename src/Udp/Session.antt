-- ===== src/Udp/Session.antt =====
-- Whole sessions of the UDP handler: the lines of the user, the datagrams of the server and the
-- timeouts, in any order.
use ipk.Common.{ℕ, false, [], ◌∷◌, ◌≡◌, arith, ◌⊎◌, Bytes, get_or}
use ipk.Protocol.{ClientState, Network, Run, returns, exits, undefined}
use ipk.Udp.Validator.{form_bye_message}
use ipk.Udp.Handler.{Udp, new_udp, resend_last_message, process_user_input}
use ipk.Udp.Received.{RecvFrom, process_server_message}
use ipk.Udp.Awaited.{Awaits, AwaitsAfter, send_message-Awaits, process_user_input-Awaits}
use ipk.Udp.Confirmed.{process_server_message-Awaits}

pub data Input : Type 0 where
  line : Bytes → Input
  socket : RecvFrom → Input
  timeout : Input

-- The confirmation that a server makes of a message: its id, copied.
abbrev pub confirmation_of : Bytes → Bytes
confirmation_of m = 0 ∷ get_or m 1 0 ∷ get_or m 2 0 ∷ []

-- Nothing more is awaited, or a BYE with the next id is.
abbrev pub EndsWait : Udp → Udp → Type 0
EndsWait s t =
    (t.waiting_for_confirmation ≡ false)
    ⊎ ((t.last_message ≡ form_bye_message s.renamer3000) × (t.awaited_conirm_id ≡ s.renamer3000))

-- The method returns, and leaves such a state.
abbrev pub EndsWaitAfter : Udp → Run Udp ClientState → Type 0
EndsWaitAfter s (returns _ t) = EndsWait s t
EndsWaitAfter s (exits t) = ⊥
EndsWaitAfter s undefined = ⊥

module _ (net : Network) where
  -- One call of the event loop.
  unfoldable pub input : Input → Udp → Run Udp (Unit {0})
  input (line m) s = elim (process_user_input net m s) [
    | returns _ t ↦ returns tt t
    | exits t ↦ exits t
    | undefined ↦ undefined
  ]
  input (socket d) s = elim (process_server_message net d s) [
    | returns _ t ↦ returns tt t
    | exits t ↦ exits t
    | undefined ↦ undefined
  ]
  input timeout s = returns tt (resend_last_message net s)

  -- The states in which some inputs leave the handler.
  pub data Reached (address : ℕ) : Udp → Type 0 where
    new : Reached address (new_udp address)
    next :
        {s t : Udp} (i : Input) → Reached address s → input i s ≡ returns tt t → Reached address t

  abbrev AwaitsAt : Run Udp (Unit {0}) → Type 0
  AwaitsAt (returns _ s) = Awaits s
  AwaitsAt (exits s) = Unit
  AwaitsAt undefined = Unit

  AwaitsAt-after :
      (r : Run Udp ClientState)
      → AwaitsAfter r
      → AwaitsAt (elim r [ returns _ t ↦ returns tt t | exits t ↦ exits t | undefined ↦ undefined ])
  AwaitsAt-after (returns _ t) h = h
  AwaitsAt-after (exits t) h = tt
  AwaitsAt-after undefined h = tt

  input-Awaits : (i : Input) (s : Udp) → Awaits s → AwaitsAt (input i s)
  unfolding input resend_last_message
  input-Awaits (line m) s h = AwaitsAt-after _ (process_user_input-Awaits net m s h)
  input-Awaits (socket d) s h = AwaitsAt-after _ (process_server_message-Awaits net d s h)
  input-Awaits timeout s h = send_message-Awaits net _ s h

  new-Awaits : (address : ℕ) → Awaits (new_udp address)
  unfolding new_udp
  new-Awaits address = ground arith

  -- In every state that a session reaches the awaited confirmation is that of the last message.
  pub Reached-Awaits : {address : ℕ} {s : Udp} → Reached address s → Awaits s
  Reached-Awaits {address} new = new-Awaits address
  Reached-Awaits (next {s} i r e) = rw e at (input-Awaits i s (Reached-Awaits r))
