-- ===== src/Udp/Passes.antt =====
-- The actions that an input of the UDP handler may pass to the machine.
use ipk.Common.{true, ◌≡◌, Bytes, lit, bytes_eq}
use ipk.Commands.{command_of}
use ipk.Fsm.{
  Action, authorize_user, join_user, message_user, message_server, reply_server, nreply_server,
  error_server,
}
use ipk.Udp.Cases.{positive}
use ipk.Udp.Received.{datagram}
use ipk.Udp.Session.{Input, line, socket}

pub data Typed (m : Bytes) : Action → Type 0 where
  by_auth : bytes_eq (command_of m) (lit "/AUTH") ≡ true → Typed m authorize_user
  by_join : Typed m join_user
  by_message : Typed m message_user

pub data Heard (m : Bytes) : Action → Type 0 where
  of_message : Heard m message_server
  of_reply : positive m ≡ true → Heard m reply_server
  of_nreply : Heard m nreply_server
  of_error : Heard m error_server

abbrev pub Passes : Input → Action → Type 0
Passes (line m) a = Typed m a
Passes (socket (datagram from m)) a = Heard m a
Passes _ a = ⊥
