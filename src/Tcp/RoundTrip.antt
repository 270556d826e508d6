-- ===== src/Tcp/RoundTrip.antt =====
-- The line of a user's message, and what `validate_message_server` makes of it.
use ipk.Common.{
  ℕ, suc, ◌≤◌, true, List, [], ◌∷◌, ◌++◌, some, ◌≡◌, refl, ap, ◌∙◌, arith, Bytes, All, length, lit,
  length-append, bytes_eq,
}
use ipk.Text.{upper, to_upper}
use ipk.Grammar.{split_from, split_message, validate_dname, validate_content}
use ipk.Grammar.Split.{Spaceless, split_message-append}
use ipk.Grammar.Accepts.{Printable, validate_dname_iff}
use ipk.Tcp.Content.{content_of-split_message}
use ipk.Tcp.Validator.{validate_message_server}

length-split_from :
    (s : Bytes) (result : List Bytes) (word : Bytes) → 1 ≤ length (split_from s result word)
unfolding split_from
length-split_from [] result word = omega (arith, length-append result (word ∷ []))
length-split_from (c ∷ s) result word = ground (
  arith,
  length-split_from s (result ++ word ∷ []) [],
  length-split_from s result (word ++ c ∷ []),
)

pub length-split_message : (s : Bytes) → 1 ≤ length (split_message s)
unfolding split_message
length-split_message s = length-split_from s [] []

pub length-upper : (s : Bytes) → length (upper s) ≡ length s
length-upper [] = refl
length-upper (c ∷ s) = ap suc (length-upper s)

Printable-to_upper : (c : ℕ) → Printable c → Printable (to_upper c)
unfolding to_upper
Printable-to_upper c h = ground arith

Printable-upper : (s : Bytes) → All Printable s → All Printable (upper s)
Printable-upper [] h = tt
Printable-upper (c ∷ s) (h, hs) = (Printable-to_upper c h, Printable-upper s hs)

-- The name is checked in upper case: that makes no difference.
pub validate_dname-upper : (s : Bytes) → validate_dname s ≡ true → validate_dname (upper s) ≡ true
validate_dname-upper s h =
    let ((low, high), all) = (validate_dname_iff s).0 h in
    (validate_dname_iff (upper s)).1
      ((omega (arith, length-upper s), omega (arith, length-upper s)), Printable-upper s all)

-- The line of a message, without its "\r\n".
abbrev pub message_line : Bytes → Bytes → Bytes
message_line name content = lit "MSG FROM " ++ (name ++ (lit " IS " ++ content))

pub split_message-message_line :
    (name content : Bytes)
    → Spaceless name
    → split_message (message_line name content)
      ≡ lit "MSG" ∷ lit "FROM" ∷ name ∷ lit "IS" ∷ split_message content
unfolding lit
split_message-message_line name content h =
    split_message-append (lit "MSG") _ (omega arith)
    ∙ ap (◌∷◌ (lit "MSG")) (
        split_message-append (lit "FROM") _ (omega arith)
        ∙ ap (◌∷◌ (lit "FROM")) (
            split_message-append name _ h
            ∙ ap (◌∷◌ name) (split_message-append (lit "IS") content (omega arith))))

pub message_words :
    (bytes_eq (upper (lit "MSG")) (lit "MSG") ≡ true)
    × (bytes_eq (upper (lit "FROM")) (lit "FROM") ≡ true)
    × (bytes_eq (upper (lit "IS")) (lit "IS") ≡ true)
unfolding lit to_upper bytes_eq
message_words = (refl, refl, refl)

-- The line passes every test of the validator, so that the name and the content are returned.
pub validate_message_server-message_line :
    (own name content : Bytes)
    → validate_dname name ≡ true
    → Spaceless name
    → validate_content content ≡ true
    → validate_message_server own (message_line name content) ≡ some ((content, name), true)
unfolding validate_message_server
validate_message_server-message_line own name content v h c =
    rw (split_message-message_line name content h) (
      ground (
        arith,
        length-split_message content,
        message_words,
        validate_dname-upper name v,
        content_of-split_message content,
        split_message-message_line name content h,
      ))
