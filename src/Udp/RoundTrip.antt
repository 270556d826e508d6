-- ===== src/Udp/RoundTrip.antt =====
-- The datagram of a user's message, and what `parse_and_validate` makes of it.
use ipk.Common.{
  ℕ, ◌<◌, true, List, [], ◌∷◌, ◌++◌, ◌≡◌, ◌≢◌, refl, ◌∙◌, arith, append_assoc, append-nil, Bytes,
  All, All-imp, drop,
}
use ipk.Udp.Fields.{validate_dname, validate_content}
use ipk.Grammar.Accepts.{Printable}
use ipk.Udp.Fields.Same.{dname_iff, content_iff}
use ipk.Udp.Validator.{reply, field, words_from, parse_and_validate, msg, message_validate}
use ipk.Udp.Received.{message_id}
use ipk.Udp.Awaited.{message_id-header}

-- No null byte in the text.
abbrev pub NoNull : Bytes → Type 0
NoNull = All (λ c. c ≢ 0)

Printable-NoNull : (s : Bytes) → All Printable s → NoNull s
Printable-NoNull s h = All-imp Printable (λ c. c ≢ 0) s (λ c p. omega arith) h

-- A field becomes one more word.
words_from-field :
    (text rest : Bytes) (result : List Bytes) (word : Bytes)
    → NoNull text
    → words_from (field text rest) result word ≡ words_from rest (result ++ (word ++ text) ∷ []) []
unfolding words_from
words_from-field [] rest result word h = rw append-nil
words_from-field (c ∷ text) rest result word (h, hs) =
    ground (
      arith,
      words_from-field text rest result (word ++ c ∷ []) hs,
      append_assoc word (c ∷ []) text,
    )

two_fields :
    (name content : Bytes)
    → NoNull name
    → NoNull content
    → words_from (field name (field content [])) [] [] ≡ name ∷ content ∷ []
unfolding words_from
two_fields name content h k =
    words_from-field name _ [] [] h ∙ words_from-field content [] (name ∷ []) [] k

-- A valid content and its null byte.
pub parse_and_validate-reply :
    (content : Bytes)
    → validate_content content ≡ true
    → parse_and_validate (field content []) reply ≡ (content ∷ [], true)
unfolding parse_and_validate words_from
parse_and_validate-reply content c =
    rw (words_from-field content [] [] [] (Printable-NoNull content ((content_iff content).0 c).1))
      (rw c)

-- A valid name and a valid content, each with its null byte.
pub parse_and_validate-fields :
    (name content : Bytes)
    → validate_dname name ≡ true
    → validate_content content ≡ true
    → parse_and_validate (field name (field content [])) msg ≡ (name ∷ content ∷ [], true)
unfolding parse_and_validate
parse_and_validate-fields name content n c =
    rw
      (two_fields name content (Printable-NoNull name ((dname_iff name).0 n).1)
        (Printable-NoNull content ((content_iff content).0 c).1))
      (rw (n, c))

-- The datagram of a user's message has this id, and parses as the name and the content, which
-- are valid.
parse_and_validate-message_validate :
    (name content : Bytes) (id : ℕ)
    → validate_dname name ≡ true
    → validate_content content ≡ true
    → id < 65536
    → let (datagram, valid) = message_validate name 0x04 id content in
      (valid ≡ true)
      × (message_id datagram ≡ id)
      × (parse_and_validate (drop 3 datagram) msg ≡ (name ∷ content ∷ [], true))
unfolding message_validate
parse_and_validate-message_validate name content id n c h =
    rw c (refl, message_id-header 4 id [] h, parse_and_validate-fields name content n c)
