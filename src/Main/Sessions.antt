-- ===== src/Main/Sessions.antt =====
-- The whole program beside the sessions of its protocol handler.
use ipk.Common.{true, false, refl, ℕ, ◌≡◌}
use mathlib.Core.Path.{subst}
use ipk.Protocol.{over, ClientState}
use ipk.Config.{Config}
use ipk.Connect.{get_server_address, endpoint}
use ipk.Main.{Handler, null, over_tcp, over_udp}
use ipk.Main.Program.{
  World, Program, exited, ended, waits, crashed, Object, tcp, udp, no_object, after_loop,
  of_handler, run_handler,
}
use ipk.Stream.{is_over, ProtocolHandler, Course, polls, closes, fails, crashes, start}
use ipk.Stream.Invariant.{CourseKeeps}
use ipk.Stream.Methods.{any_reports, run_event_loop-Methods}
use ipk.Tcp.Client.{new_client, tcp_handler}
use ipk.Tcp.Session.{ongoing, new}
use ipk.Tcp
use ipk.Tcp.Loop as TcpLoop
use ipk.Udp.Client.{udp_handler}
use ipk.Udp.Handler.{new_udp}
use ipk.Udp
use ipk.Udp.Loop as UdpLoop

-- The address and port that the datagrams are sent to at first.
abbrev pub server_of : World → Config → ℕ
server_of w c = endpoint (get_server_address w.inet_pton c.server_ip c.server_port)

-- An object that a session of its handler, from a new object on, has come to, and goes on from.
abbrev pub InSession : World → Config → Object → Type 0
InSession w c (tcp client) = Tcp.Session.Reached w.net client.1
InSession w c (udp s) = Udp.Session.Reached w.net (server_of w c) s
InSession w c no_object = Unit

-- The same where the event loop is over.
abbrev pub AfterSession : World → Config → Object → Type 0
AfterSession w c (tcp client) = Tcp.Session.InSession w.net over client.1
AfterSession w c (udp s) = Udp.Session.Reached w.net (server_of w c) s
AfterSession w c no_object = Unit

-- What undefined behaviour is due to: an improper input of a session, or that there is no handler.
abbrev pub Mishap : World → Config → Handler → Type 0
Mishap w c null = Unit
Mishap w c over_tcp = Tcp.Session.Mishap w.net
Mishap w c over_udp = Udp.Definedness.Mishap w.net (server_of w c)

-- The program waits or has ended with such an object, or a session of it met undefined behaviour.
abbrev pub RunsSession : World → Config → Handler → Program Object → Type 0
RunsSession w c handler (exited status) = Unit
RunsSession w c handler (ended o) = AfterSession w c o
RunsSession w c handler (waits o) = InSession w c o
RunsSession w c handler crashed = Mishap w c handler

is_over-eq : (state : ClientState) → is_over state ≡ true → state ≡ over
is_over-eq over e = refl
is_over-eq _ e = cc e

after_loop-RunsSession :
    {H I : Type 0} (w : World) (c : Config) (handler : Handler) (p : ProtocolHandler H I)
    (Q : ClientState → H → Type 0) (f : H → Object)
    → ((state : ClientState) (h : H) → is_over state ≡ false → Q state h → InSession w c (f h))
    → ((h : H) → Q over h → AfterSession w c (f h))
    → (course : Course H) → CourseKeeps p (λ l. Q l.state l.handler) (Mishap w c handler) course
    → RunsSession w c handler (of_handler f (after_loop course))
after_loop-RunsSession w c handler p Q f k k' (polls l) (o, h) = k l.state l.handler o h
after_loop-RunsSession w c handler p Q f k k' (closes l) (o, h) =
    k' l.handler (subst (λ state. Q state l.handler) (is_over-eq l.state o) h)
after_loop-RunsSession w c handler p Q f k k' fails h = tt
after_loop-RunsSession w c handler p Q f k k' crashes h = h

null-RunsSession :
    (w : World) (c : Config) (course : Course (Unit {0}))
    → RunsSession w c null (of_handler (λ _. no_object) (after_loop course))
null-RunsSession w c (polls l) = tt
null-RunsSession w c (closes l) = tt
null-RunsSession w c fails = tt
null-RunsSession w c crashes = tt

pub run_handler-RunsSession :
    (w : World) (c : Config) (h : Handler) → RunsSession w c h (run_handler w c h)
unfolding run_handler start new_client
run_handler-RunsSession w c null = null-RunsSession w c _
run_handler-RunsSession w c over_tcp =
    after_loop-RunsSession w c over_tcp (tcp_handler w.net)
      (λ state h. Tcp.Session.InSession w.net state h.1) tcp
      (λ state h o k. TcpLoop.InSession-Reached w.net state o k) (λ h k. k) _
      (run_event_loop-Methods (tcp_handler w.net) (λ state h. Tcp.Session.InSession w.net state h.1)
        (Tcp.Session.Mishap w.net) _ _ (TcpLoop.sessions w.net) _
        (start c.max_udp_retransmissions new_client) (any_reports _)
        (ongoing ClientState.ready_for_input new))
run_handler-RunsSession w c over_udp =
    let server = server_of w c in
    after_loop-RunsSession w c over_udp (udp_handler w.net) (UdpLoop.InSession w.net server) udp
      (λ state h o k. k) (λ h k. k) _
      (run_event_loop-Methods (udp_handler w.net) (UdpLoop.InSession w.net server)
        (Mishap w c over_udp) _ _ (UdpLoop.sessions w.net server) _
        (start c.max_udp_retransmissions (new_udp server)) (any_reports _) Udp.Session.new)
