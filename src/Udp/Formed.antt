-- ===== src/Udp/Formed.antt =====
-- UDPMessageValidator.cpp: what the validator forms for the user is a datagram of the protocol.
use ipk.Common.{true, ℕ, [], ◌≡◌, arith, Bytes}
use ipk.Udp.Fields.{validate_id, validate_secret, validate_content, validate_dname}
use ipk.Udp.Fields.Same.{
  validate_id-IsId, validate_secret-IsSecret, validate_content-IsContent, validate_dname-IsName,
}
use ipk.Udp.Validator.{header, field, authorize_validate, join_validate, message_validate}
use ipk.Udp.Wire.{RequestOf, auth, join, message, Named}

pub authorize_validate-Named :
    (own : Bytes) (n : ℕ) (username name secret : Bytes)
    → Named own
    → Named (authorize_validate own 0x02 n username name secret).1
unfolding authorize_validate
authorize_validate-Named own n username name secret h = ground (arith, validate_dname-IsName name)

pub authorize_validate-Request :
    {may : Type 0} (own : Bytes) (n : ℕ) (username name secret : Bytes)
    → (authorize_validate own 0x02 n username name secret).0.1 ≡ true
    → RequestOf may n (authorize_validate own 0x02 n username name secret).0.0
unfolding authorize_validate
authorize_validate-Request {may} own n username name secret h =
    let datagram : validate_id username ≡ true
        → validate_dname name ≡ true
        → validate_secret secret ≡ true
        → RequestOf may n (header 0x02 n (field username (field name (field secret [])))) =
      λ i j k.
        auth n username name secret (validate_id-IsId username i) (validate_dname-IsName name j)
          (validate_secret-IsSecret secret k) in
    ground (arith, datagram)

pub join_validate-Request :
    {may : Type 0} (own : Bytes) (n : ℕ) (channel : Bytes)
    → may
    → Named own
    → (join_validate own 0x03 n channel).1 ≡ true
    → RequestOf may n (join_validate own 0x03 n channel).0
unfolding join_validate
join_validate-Request {may} own n channel a w h =
    let datagram : validate_id channel ≡ true
        → RequestOf may n (header 0x03 n (field channel (field own []))) =
      λ i. join n channel own a (validate_id-IsId channel i) w in
    ground (arith, datagram)

pub message_validate-Request :
    {may : Type 0} (own : Bytes) (n : ℕ) (content : Bytes)
    → may
    → Named own
    → (message_validate own 0x04 n content).1 ≡ true
    → RequestOf may n (message_validate own 0x04 n content).0
unfolding message_validate
message_validate-Request {may} own n content a w h =
    let datagram : validate_content content ≡ true
        → RequestOf may n (header 0x04 n (field own (field content []))) =
      λ i. message n own content a w (validate_content-IsContent content i) in
    ground (arith, datagram)
