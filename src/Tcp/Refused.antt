-- ===== src/Tcp/Refused.antt =====
-- The negative reply to a TCP client that waits for a reply.
use ipk.Common.{true, false, [], ◌∷◌, ◌++◌, some, ◌≡◌, refl, ap, ◌∙◌, arith, Bytes, lit, bytes_eq}
use ipk.Text.{upper, to_upper}
use ipk.Grammar.{split_message, validate_content}
use ipk.Grammar.Split.{split_message-append}
use ipk.Fsm.{Fsm, authorize_user, any, auth, nreply_server}
use ipk.Fsm.Invariant.{fsm}
use ipk.ClientOutput
use ipk.Protocol.{ready_for_input, Network, returns, ◌>>=◌}
use ipk.Tcp.Validator.{validate_reply}
use ipk.Tcp.Content.{content_of-split_message}
use ipk.Tcp.RoundTrip.{length-split_message}
use ipk.Tcp.Handler.{Tcp, react, print, set_waiting}
use ipk.Tcp.Received.{on_reply, process_received}

-- The negative reply.
abbrev pub nok_line : Bytes → Bytes
nok_line text = lit "REPLY NOK IS " ++ text

split_message-nok_line :
    (text : Bytes)
    → split_message (nok_line text) ≡ lit "REPLY" ∷ lit "NOK" ∷ lit "IS" ∷ split_message text
unfolding lit
split_message-nok_line text =
    split_message-append (lit "REPLY") _ (omega arith)
    ∙ ap (◌∷◌ (lit "REPLY")) (
        split_message-append (lit "NOK") _ (omega arith)
        ∙ ap (◌∷◌ (lit "NOK")) (split_message-append (lit "IS") text (omega arith)))

nok_words :
    (bytes_eq (upper (lit "REPLY")) (lit "MSG") ≡ false)
    × (bytes_eq (upper (lit "REPLY")) (lit "REPLY") ≡ true)
    × (bytes_eq (upper (lit "NOK")) (lit "OK") ≡ false)
    × (bytes_eq (upper (lit "NOK")) (lit "NOK") ≡ true)
    × (bytes_eq (upper (lit "IS")) (lit "IS") ≡ true)
unfolding lit to_upper bytes_eq
nok_words = (refl, refl, refl, refl, refl)

validate_reply-nok_line :
    (text : Bytes)
    → validate_content text ≡ true
    → validate_reply (nok_line text) ≡ some (text, true)
unfolding validate_reply
validate_reply-nok_line text h =
    rw (split_message-nok_line text)
      (ground (arith, length-split_message text, nok_words, content_of-split_message text, h))

-- The machine after an /auth, and after the negative reply to it.
abbrev pub asking : Fsm
asking = fsm auth (some auth) (any ∷ [])

abbrev pub denied : Fsm
denied = fsm auth (some auth) (authorize_user ∷ [])

-- The client whose request was refused.
abbrev pub refused : Bytes → Tcp → Tcp
refused text s = record s {
  fsm = denied;
  waiting_for_reply = false;
  log = ClientOutput.reply_error text ∷ s.log;
}

module _ (net : Network) where
  pub on_reply-nok_line :
      (text : Bytes) (s : Tcp)
      → validate_content text ≡ true
      → s.waiting_for_reply ≡ true
      → on_reply net ClientOutput.reply_error (nok_line text) any (record s { fsm = denied })
        ≡ returns ready_for_input (refused text s)
  unfolding on_reply print set_waiting
  on_reply-nok_line text s h w = ground (arith, validate_reply-nok_line text h)

  pub nok_command :
      (text : Bytes) (s : Tcp)
      → process_received net (nok_line text) s
        ≡ (react nreply_server >>= on_reply net ClientOutput.reply_error (nok_line text)) s
  unfolding process_received
  nok_command text s =
      rw (split_message-nok_line text) (ground (arith, length-split_message text, nok_words))
