-- ===== src/Tcp/Client.antt =====
-- The TCP handler as the event loop's handler. Its state is the static buffer and the object.
use ipk.Common.{ℕ, zero, suc, List, [], ◌∷◌, ◌++◌, Option, none, some, ◌≢◌, arith, Bytes}
use ipk.Protocol.{ClientState, Network, Run, returns, exits, undefined}
use ipk.Stream.{ProtocolHandler}
use ipk.Tcp.Handler.{Tcp, new_tcp, process_user_input}
use ipk.Tcp.Received.{process_received}
use ipk.Tcp.Receive.{Recv, failed, process_server_message}
use ipk.Tcp.Framing.{drain_buffer-total}

-- The buffer and the object.
abbrev pub Client : Type 0
Client = Bytes × Tcp

unfoldable pub new_client : Client
unfolding new_tcp
new_client = ([], new_tcp)

-- What the `recv` calls of one `process_server_message` give: some failures, and then a result. On a
-- socket that stays broken the method calls `recv` for ever, and gives the loop nothing.
pub data Last : Type 0 where
  at_end : Last
  bytes : Bytes → Last

pub record Incoming : Type 0 where
  pub failures : ℕ
  pub last : Last

abbrev pub recv_of : Last → Recv
recv_of at_end = Recv.at_end
recv_of (bytes b) = Recv.bytes b

abbrev pub calls_of : ℕ → Last → List Recv
calls_of zero last = recv_of last ∷ []
calls_of (suc n) last = failed ∷ calls_of n last

-- A method that leaves the buffer alone.
abbrev pub beside : Bytes → Run Tcp ClientState → Run Client ClientState
beside buffer (returns state s) = returns state (buffer, s)
beside buffer (exits s) = exits (buffer, s)
beside buffer undefined = undefined

-- Not used by TCP.
unfoldable pub resend_last_message : Client → Client
resend_last_message c = c

-- A call that has not returned after its last result would wait: it does not come to that.
abbrev pub returned : Option (Run Client ClientState × List Recv) → Run Client ClientState
returned none = undefined
returned (some (r, calls)) = r

abbrev pub tcp_handler : Network → ProtocolHandler Client Incoming
tcp_handler net = record {
  process_server_message =
      λ i c. returned (process_server_message net (calls_of i.failures i.last) c);
  process_user_input = λ m c. beside c.0 (process_user_input net m c.1);
  resend_last_message = resend_last_message;
}

-- `process_server_message` returns at the first `recv` call that does not fail, after any number of
-- calls that fail: it makes no further call.
process_server_message-ne-none :
    (net : Network) (n : ℕ) (last : Last) (c : Client)
    → process_server_message net (calls_of n last) c ≢ none
unfolding process_server_message
process_server_message-ne-none net zero at_end (buffer, s) = ground arith
process_server_message-ne-none net zero (bytes b) (buffer, s) =
    let (r, e) = drain_buffer-total (process_received net) (buffer ++ b) s in ground (arith, e)
process_server_message-ne-none net (suc n) last (buffer, s) =
    process_server_message-ne-none net n last _
