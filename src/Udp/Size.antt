-- ===== src/Udp/Size.antt =====
-- How long the datagrams are that a client sends.
use ipk.Common.{ℕ, ◌≤◌, ◌+◌, ◌≡◌, [], ◌∷◌, inl, inr, arith, Bytes, length, length-append}
use ipk.Udp.Validator.{field}
use ipk.Udp.Wire.{Request, Wire, confirm, request, bye, auth, join, message, error, Named}

Named-size : (name : Bytes) → Named name → length name ≤ 20
Named-size name (inl e) = rw e (omega arith)
Named-size name (inr v) = v.sized.1

length-field : (text rest : Bytes) → length (field text rest) ≡ length text + 1 + length rest
length-field text rest = omega (arith, length-append text (0 ∷ rest))

-- The longest is an ERR or a MSG.
Request-size : (id : ℕ) (m : Bytes) → Request id m → length m ≤ 1425
Request-size _ m (bye id) = omega arith
Request-size _ m (auth id username name secret u n s) =
    let u' = u.sized.1 in
    let n' = n.sized.1 in
    let s' = s.sized.1 in
    omega (
      arith,
      length-field username (field name (field secret [])),
      length-field name (field secret []),
      length-field secret [],
    )
Request-size _ m (join id channel name _ c n) =
    let c' = c.sized.1 in
    let n' = Named-size name n in
    omega (arith, length-field channel (field name []), length-field name [])
Request-size _ m (message id name content _ n c) =
    let c' = c.sized.1 in
    let n' = Named-size name n in
    omega (arith, length-field name (field content []), length-field content [])
Request-size _ m (error id name content n c) =
    let c' = c.sized.1 in
    let n' = Named-size name n in
    omega (arith, length-field name (field content []), length-field content [])

pub Wire-size : (m : Bytes) → Wire m → length m ≤ 1425
Wire-size m (confirm id) = omega arith
Wire-size m (request r) = Request-size _ m r
