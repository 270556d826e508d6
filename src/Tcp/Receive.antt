-- ===== src/Tcp/Receive.antt =====
-- TCPProtocolHandler.cpp: `process_server_message`. The static buffer stands beside the object, which
-- cannot reach it. The loops are written for any handler of one message, and used with
-- `process_received`.
use ipk.Common.{
  ℕ, zero, suc, ◌+◌, List, [], ◌∷◌, ◌++◌, Option, none, some, Bytes, lit, length, take, drop,
}
use ipk.Text.{find_crlf}
use ipk.Protocol.{
  ClientState, ready_for_input, over, cout, cerr, closed, Network, Run, returns, exits, undefined,
}
use ipk.Tcp.Handler.{Tcp}
use ipk.Tcp.Received.{process_received}

-- What follows one message: the loop goes on after READY_FOR_INPUT, and any other state is returned
-- with the rest of the buffer left in it.
unfoldable pub proceed :
    {S : Type 0}
    → (S → Option (Run (Bytes × S) ClientState))
    → Bytes
    → Run S ClientState
    → Option (Run (Bytes × S) ClientState)
proceed again rest (returns ready_for_input t) = again t
proceed again rest (returns state t) = some (returns state (rest, t))
proceed again rest (exits t) = some (exits (rest, t))
proceed again rest undefined = some undefined

-- The inner loop, on fuel; `none` is a lack of fuel.
unfoldable pub drain :
    {S : Type 0}
    → (Bytes → S → Run S ClientState)
    → ℕ
    → Bytes
    → S
    → Option (Run (Bytes × S) ClientState)
unfolding proceed
drain handle zero buffer s = none
drain handle (suc fuel) buffer s = elim (find_crlf buffer) [
  | none ↦ some (returns ready_for_input (buffer, s))
  | some pos ↦
      let message = take pos buffer in
      let rest = drop (pos + 2) buffer in proceed (drain handle fuel rest) rest (handle message s)
]

-- What one `recv` call gives: -1, 0 or a number of bytes.
pub data Recv : Type 0 where
  failed : Recv
  at_end : Recv
  bytes : Bytes → Recv

-- `process_server_message` over the results that `recv` will give; `none` if it waits for more of
-- them. A failed call is reported, and made again. The rest of the results is left.
unfoldable pub process_server_message :
    Network → List Recv → Bytes × Tcp → Option (Run (Bytes × Tcp) ClientState × List Recv)
process_server_message net [] c = none
process_server_message net (failed ∷ calls) (buffer, s) =
    process_server_message net calls (buffer, record s { log = cerr (lit "recv") ∷ s.log })
process_server_message net (at_end ∷ calls) (buffer, s) =
    let t = record s { log = closed ∷ cout (lit "Server closed the connection") ∷ s.log } in
    some (returns over (buffer, t), calls)
process_server_message net (bytes received ∷ calls) (buffer, s) =
    elim (drain (process_received net) (suc (length (buffer ++ received))) (buffer ++ received) s) [
      | none ↦ none
      | some r ↦ some (r, calls)
    ]
