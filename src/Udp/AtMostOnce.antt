-- ===== src/Udp/AtMostOnce.antt =====
-- A message of the server that comes again, at any time.
use ipk.Common.{if◌then◌else◌, lit, ℕ, true, false, List, ◌∷◌, ◌≡◌, arith, Bytes, if_elim}
use ipk.Fsm.{Action, any, opened, is_restricted, message_server}
use ipk.ClientOutput
use ipk.Protocol.{
  ClientState, ready_for_input, Effect, cout, Log, Network, Run, returns, exits, undefined,
}
use ipk.Udp.Validator.{msg, parse_and_validate}
use ipk.Udp.Handler.{
  reacting, Udp, id_lookup, send_message, send_confirmation, send_awaited, send_error_message,
}
use ipk.Udp.Received.{message_id, on_msg, on_msg_message, process_received}
use ipk.Udp.Cases.{reacting_cases}
use ipk.Udp.Session.{Input, input}
use ipk.Udp.Remembered.{Remembers, input-RemembersAt}
use ipk.Udp.Duplicates.{datagram_of, printed, process_received_new, id_lookup-append}

-- Nothing on the standard output, where messages are printed.
abbrev pub Quiet : Effect → Type 0
Quiet (cout text) = ⊥
Quiet _ = Unit

-- What was done since then is quiet.
pub data QuietSince (log : Log) : Log → Type 0 where
  nothing : QuietSince log log
  something : {e : Effect} {now : Log} → Quiet e → QuietSince log now → QuietSince log (e ∷ now)

abbrev pub QuietAfter : Log → Run Udp ClientState → Type 0
QuietAfter log (returns _ s) = QuietSince log s.log
QuietAfter log (exits s) = QuietSince log s.log
QuietAfter log undefined = Unit

module _ (net : Network) where
  -- The states that inputs lead to from one state.
  pub data Later (s : Udp) : Udp → Type 0 where
    now : Later s s
    further : {t u : Udp} (i : Input) → Later s t → input net i t ≡ returns tt u → Later s u

  Later-Remembers : {s t : Udp} (id : ℕ) → Later s t → Remembers id s → Remembers id t
  Later-Remembers id now h = h
  Later-Remembers id (further {t} i l e) h =
      rw e at (input-RemembersAt net id i t (Later-Remembers id l h))

  send_message-QuietSince :
      (log : Log) (m : Bytes) (s : Udp)
      → QuietSince log s.log
      → QuietSince log (send_message net m s).log
  unfolding send_message ClientOutput.internal_error_message
  send_message-QuietSince log m s h =
      if_elim (λ (u : Udp). QuietSince log u.log) (net s.log m) (something tt h)
        (something tt (something tt h))

  send_error_message-QuietSince :
      (log : Log) (e : Bytes) (s : Udp)
      → QuietSince log s.log
      → QuietSince log (send_error_message net e s).log
  unfolding send_error_message send_awaited
  send_error_message-QuietSince log e s h =
      if_elim (λ (u : Udp). QuietSince log u.log) s.waiting_for_confirmation h
        (send_message-QuietSince log _ s h)

  on_msg-QuietAfter :
      (id : ℕ) (words : List Bytes) (r : Action) (s : Udp)
      → Remembers id s
      → QuietAfter s.log (on_msg net id words r s)
  unfolding on_msg send_confirmation
  on_msg-QuietAfter id words any s h = rw h (send_message-QuietSince s.log _ s nothing)
  on_msg-QuietAfter id words _ s h = send_error_message-QuietSince s.log _ s nothing

  -- The branch of a MSG.
  process_received-datagram_of :
      (high low : ℕ) (text : Bytes) (s : Udp)
      → process_received net (datagram_of high low text) s ≡ (
          let result = parse_and_validate text msg in
          if result.1
          then reacting message_server
              (on_msg net (message_id (datagram_of high low text)) result.0)
              s
          else returns ClientState.waiting_for_confirmation
              (send_error_message net (lit "Invalid content in message") s))
  unfolding process_received on_msg_message
  process_received-datagram_of high low text s = ground arith

  datagram_of-QuietAfter :
      (high low : ℕ) (text : Bytes) (s : Udp)
      → Remembers (message_id (datagram_of high low text)) s
      → QuietAfter s.log (process_received net (datagram_of high low text) s)
  datagram_of-QuietAfter high low text s h = rw (process_received-datagram_of high low text s) (
      if_elim (QuietAfter s.log) (parse_and_validate text msg).1
        (reacting_cases (QuietAfter s.log) (λ _. Unit) message_server _ s tt (λ _. tt)
          (λ r g _. on_msg-QuietAfter _ _ r (record s { fsm = g }) h))
        (send_error_message-QuietSince s.log _ s nothing))

  -- In OPEN with nothing expected, a valid MSG whose id is new is confirmed, remembered and printed.
  -- From then on, after any inputs, a MSG with this id prints nothing on the standard output,
  -- whatever its text is.
  pub message_printed_at_most_once :
      (high low : ℕ) (text other : Bytes) (words : List Bytes) (s t : Udp)
      → parse_and_validate text msg ≡ (words, true)
      → s.fsm.current_state ≡ opened
      → is_restricted s.fsm.expected_action ≡ false
      → let id = message_id (datagram_of high low text) in
        id_lookup id s.received_ids ≡ false
        → Later (printed net id words s) t
        → (process_received net (datagram_of high low text) s
            ≡ returns ready_for_input (printed net id words s))
          × QuietAfter t.log (process_received net (datagram_of high low other) t)
  message_printed_at_most_once high low text other words s t p o e n l =
      let id = message_id (datagram_of high low text) in
      (
        process_received_new net high low text words s p o e n,
        datagram_of-QuietAfter high low other t (Later-Remembers id l (id_lookup-append id _)),
      )
