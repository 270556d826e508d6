-- ===== src/Tcp/Size.antt =====
-- How long the lines are that a client sends.
use ipk.Common.{◌≤◌, ◌++◌, inl, inr, arith, Bytes, lit, length, length-append}
use ipk.Tcp.Validator.{crlf}
use ipk.Tcp.Line.{Line, bye, auth, join, message, error, Named}

Named-size : (name : Bytes) → Named name → length name ≤ 20
Named-size name (inl e) = rw e (omega arith)
Named-size name (inr v) = v.sized.1

-- The longest is an ERR or a MSG.
pub Line-size : (m : Bytes) → Line m → length m ≤ 1435
unfolding lit
Line-size m bye = omega arith
Line-size m (auth username name secret u n s) =
    let u' = u.sized.1 in
    let n' = n.sized.1 in
    let s' = s.sized.1 in
    omega (
      arith,
      length-append username (lit " AS " ++ (name ++ (lit " USING " ++ (secret ++ crlf)))),
      length-append name (lit " USING " ++ (secret ++ crlf)),
      length-append secret crlf,
    )
Line-size m (join channel name _ c n) =
    let c' = c.sized.1 in
    let n' = Named-size name n in
    omega (arith, length-append channel (lit " AS " ++ (name ++ crlf)), length-append name crlf)
Line-size m (message name content _ n c) =
    let c' = c.sized.1 in
    let n' = Named-size name n in
    omega (arith, length-append name (lit " IS " ++ (content ++ crlf)), length-append content crlf)
Line-size m (error name content n c) =
    let c' = c.sized.1 in
    let n' = Named-size name n in
    omega (arith, length-append name (lit " IS " ++ (content ++ crlf)), length-append content crlf)
