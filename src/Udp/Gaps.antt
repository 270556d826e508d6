-- ===== src/Udp/Gaps.antt =====
-- A reply that no request awaits.
use ipk.Common.{ℕ, true, false, List, [], ◌∷◌, some, ◌≡◌, ◌≢◌, ◌∙◌, refl, arith, Bytes}
use ipk.Commands.{Plain}
use ipk.Fsm.{any, auth, opened, is_restricted, validate_action}
use ipk.Fsm.Invariant.{fsm}
use ipk.Protocol.{ready_for_input, waiting_for_confirmation, Network, returns}
use ipk.Udp.Fields.{validate_content}
use ipk.Udp.Validator.{reply, parse_and_validate}
use ipk.Udp.Handler.{Udp, reacting, send_message, send_confirmation, process_user_input}
use ipk.Udp.Received.{process_received, id_of, on_reply_message, on_reply}
use ipk.Udp.Sending.{tried, confirm_datagram}
use ipk.Udp.Exchange.{announced, process_user_input-Plain, message_announced}

module _ (net : Network) where
  -- The reply is confirmed, and the machine is in OPEN.
  abbrev pub let_in : ℕ → Udp → Udp
  let_in id s = record s {
    fsm = fsm opened (some auth) (any ∷ []);
    log = tried net s.server_address (confirm_datagram id) s.log;
  }

  stray_reply_taken :
      (high low ref_high ref_low : ℕ) (text : Bytes) (words : List Bytes) (s : Udp)
      → parse_and_validate text reply ≡ (words, true)
      → s.fsm.current_state ≡ auth
      → is_restricted s.fsm.expected_action ≡ false
      → id_of ref_high ref_low ≢ s.awaited_reply_id
      → process_received net (0x01 ∷ high ∷ low ∷ 1 ∷ ref_high ∷ ref_low ∷ text) s
        ≡ returns ready_for_input (let_in (id_of high low) s)
  unfolding process_received on_reply_message reacting on_reply validate_action send_confirmation
      send_message
  stray_reply_taken high low ref_high ref_low text words s p a e n = ground arith

  -- In AUTH with nothing expected, a valid positive REPLY to another request than the awaited one
  -- is not printed, but a CONFIRM with its id is sent, and the user's next line goes out as a MSG
  -- under the client's name, with its next id, though the server has granted no login: the line is
  -- no command and a valid content, and no error waits to be sent. Either send may fail, which is
  -- printed.
  pub stray_reply_opens :
      (high low ref_high ref_low : ℕ) (text : Bytes) (words : List Bytes) (line : Bytes) (s : Udp)
      → parse_and_validate text reply ≡ (words, true)
      → s.fsm.current_state ≡ auth
      → is_restricted s.fsm.expected_action ≡ false
      → id_of ref_high ref_low ≢ s.awaited_reply_id
      → s.error_while_waiting ≡ false
      → Plain line
      → validate_content line ≡ true
      → let inside = let_in (id_of high low) s in
        (process_received net (0x01 ∷ high ∷ low ∷ 1 ∷ ref_high ∷ ref_low ∷ text) s
          ≡ returns ready_for_input inside)
        × (process_user_input net line inside
            ≡ returns waiting_for_confirmation (announced net line inside))
  stray_reply_opens high low ref_high ref_low text words line s p a e n w plain v = (
    stray_reply_taken high low ref_high ref_low text words s p a e n,
    process_user_input-Plain net line (let_in (id_of high low) s) plain w
        ∙ message_announced net line (let_in (id_of high low) s) v refl refl,
  )
