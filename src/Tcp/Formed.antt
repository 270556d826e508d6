-- ===== src/Tcp/Formed.antt =====
-- TCPMessageValidator.cpp: what the validator forms for the user is a line of the protocol.
use ipk.Common.{◌++◌, true, ◌≡◌, arith, Bytes, lit}
use ipk.Grammar.{split_message, validate_id, validate_secret, validate_content, validate_dname}
use ipk.Grammar.Accepts.{
  validate_id-IsId, validate_secret-IsSecret, validate_content-IsContent, validate_dname-IsName,
}
use ipk.Tcp.Validator.{crlf, part, authorize_validate, join_validate, message_validate}
use ipk.Tcp.Line.{LineOf, auth, join, message, Named}

pub authorize_validate-Named :
    (own argument : Bytes) → Named own → Named (authorize_validate own argument).1
unfolding authorize_validate
authorize_validate-Named own argument h =
    ground (arith, validate_dname-IsName (part (split_message argument) 2))

-- The text does not depend on the name that the client had.
pub authorize_validate-Line :
    {may : Type 0} (own other argument : Bytes)
    → (authorize_validate other argument).0.1 ≡ true
    → LineOf may (authorize_validate own argument).0.0
unfolding authorize_validate
authorize_validate-Line {may} own other argument h =
    let parts = split_message argument in
    let u = part parts 0 in
    let n = part parts 2 in
    let x = part parts 1 in
    let line : validate_id u ≡ true
        → validate_dname n ≡ true
        → validate_secret x ≡ true
        → LineOf may (lit "AUTH " ++ (u ++ (lit " AS " ++ (n ++ (lit " USING " ++ (x ++ crlf)))))) =
      λ i j k.
        auth u n x (validate_id-IsId u i) (validate_dname-IsName n j)
          (validate_secret-IsSecret x k) in
    ground (arith, line)

pub join_validate-Line :
    {may : Type 0} (own argument : Bytes)
    → may
    → Named own
    → (join_validate own argument).1 ≡ true
    → LineOf may (join_validate own argument).0
unfolding join_validate
join_validate-Line {may} own argument c w h =
    let channel = part (split_message argument) 0 in
    let line : validate_id channel ≡ true
        → LineOf may (lit "JOIN " ++ (channel ++ (lit " AS " ++ (own ++ crlf)))) =
      λ i. join channel own c (validate_id-IsId channel i) w in
    ground (arith, line)

pub message_validate-Line :
    {may : Type 0} (own content : Bytes)
    → may
    → Named own
    → (message_validate own content).1 ≡ true
    → LineOf may (message_validate own content).0
unfolding message_validate
message_validate-Line {may} own content a w h =
    let line : validate_content content ≡ true
        → LineOf may (lit "MSG FROM " ++ (own ++ (lit " IS " ++ (content ++ crlf)))) =
      λ i. message own content a w (validate_content-IsContent content i) in
    ground (arith, line)
