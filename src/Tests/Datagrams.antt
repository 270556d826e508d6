-- ===== src/Tests/Datagrams.antt =====
-- The UDP handler on concrete datagrams.
use ipk.Common.{true, false, [], ◌∷◌, ◌++◌, some, ◌≡◌, ◌∙◌, refl, arith, Bytes, lit, bytes_eq}
use ipk.Text.{find, before, after, to_upper, is_alnum, is_print}
use ipk.Grammar.{all_chars}
use ipk.Udp.Fields.{split_message, validate_id, validate_secret, validate_dname, validate_content}
use ipk.Fsm.{any, opened, auth, initial, validate_action}
use ipk.Fsm.Invariant.{fsm}
use ipk.Protocol.{ready_for_input, waiting_for_confirmation, Network, returns}
use ipk.Udp.Validator.{authorize_validate, msg, reply, parse_and_validate, words_from}
use ipk.Udp.Handler.{
  Udp, new_udp, id_lookup, send_message, resend_last_message, send_awaited, reacting, on_auth,
  process_user_input,
}
use ipk.Udp.Received.{message_id, id_of, process_received}
use ipk.Udp.Answering.{Reached-Sequenced}
use ipk.Udp.Session.{timeout, line, input, Reached, new, next}
use ipk.Udp.Duplicates.{datagram_of, printed}
use ipk.Udp.Sequence.{Sequenced}
use ipk.Udp.AtMostOnce.{Later, now, further, QuietAfter, message_printed_at_most_once}
use ipk.Udp.Gaps.{let_in, stray_reply_opens}
use ipk.Udp.Exchange.{announced}
use ipk.Udp.Fields.Same.{content_same}
use ipk.Tests.Fields.{ann, text, text-Plain, text-valid}

abbrev net : Network
net _ _ = true

-- After `/auth ab s Ann`.
abbrev auth_line : Bytes
auth_line = lit "/auth ab s Ann"

abbrev asked : Udp
asked = elim (input net (line auth_line) (new_udp 7)) [ returns _ s ↦ s | _ ↦ new_udp 7 ]

asked-Reached : Reached net 7 asked
unfolding input process_user_input bytes_eq lit find before after to_upper reacting validate_action
    initial on_auth split_message authorize_validate validate_id validate_secret validate_dname
    all_chars is_alnum is_print send_awaited send_message new_udp
asked-Reached = next (line auth_line) new refl

abbrev open_client : Udp
open_client = record (new_udp 7) { fsm = fsm opened (some auth) (any ∷ []) }

-- "Ann" and "hi", each with its null byte.
abbrev hi : Bytes
hi = lit "Ann" ++ (0 ∷ (lit "hi" ++ 0 ∷ []))

hi-parses : parse_and_validate hi msg ≡ (ann ∷ lit "hi" ∷ [], true)
unfolding parse_and_validate words_from validate_dname validate_content all_chars is_print lit
hi-parses = refl

open-unused : id_lookup (message_id (datagram_of 1 2 hi)) open_client.received_ids ≡ false
unfolding id_lookup new_udp
open-unused = refl

-- A client in AUTH that awaits the reply to its message 0.
abbrev auth_client : Udp
auth_client = record (new_udp 7) { fsm = fsm auth (some auth) (any ∷ []) }

welcome-parses : parse_and_validate (lit "hi" ++ 0 ∷ []) reply ≡ (lit "hi" ∷ [], true)
unfolding parse_and_validate words_from validate_content all_chars is_print lit
welcome-parses = refl

stray_reply_opens_example :
    let inside = let_in net (id_of 0 5) auth_client in
    (process_received net (0x01 ∷ 0 ∷ 5 ∷ 1 ∷ 0 ∷ 9 ∷ (lit "hi" ++ 0 ∷ [])) auth_client
      ≡ returns ready_for_input inside)
    × (process_user_input net text inside
        ≡ returns waiting_for_confirmation (announced net text inside))
unfolding new_udp
stray_reply_opens_example =
    stray_reply_opens net 0 5 0 9 (lit "hi" ++ 0 ∷ []) (lit "hi" ∷ []) text auth_client
      welcome-parses refl refl (omega arith) refl text-Plain (content_same text ∙ text-valid)

Reached-Sequenced_example : Sequenced asked.renamer3000 asked.last_message asked.log
Reached-Sequenced_example = Reached-Sequenced net asked-Reached

-- After the first copy, and then a timeout.
abbrev shown : Udp
shown = printed net (message_id (datagram_of 1 2 hi)) (ann ∷ lit "hi" ∷ []) open_client

shown-Later : Later net shown (resend_last_message net shown)
unfolding input
shown-Later = further timeout now refl

message_printed_at_most_once_example :
    (process_received net (datagram_of 1 2 hi) open_client ≡ returns ready_for_input shown)
    × QuietAfter
        (resend_last_message net shown).log
        (process_received net (datagram_of 1 2 (lit "other")) (resend_last_message net shown))
message_printed_at_most_once_example =
    message_printed_at_most_once net 1 2 hi (lit "other") (ann ∷ lit "hi" ∷ []) open_client
      (resend_last_message net shown) hi-parses refl refl open-unused shown-Later
