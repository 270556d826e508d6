-- ===== src/Tests.antt =====
-- Runs of the definitions at concrete inputs, and instances of the theorems there.
mod Machine
mod Fields
mod StreamOfBytes
mod Datagrams
mod EventLoop
mod Startup
mod TcpSessions
mod UdpSessions
mod Programs
mod Chats
mod Logins
