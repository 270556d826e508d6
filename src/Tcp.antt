-- ===== src/Tcp.antt =====
-- TCPMessageValidator.cpp (Validator), TCPProtocolHandler.cpp (Handler, Received, Receive).
pub mod Validator
pub mod Handler
pub mod Received
pub mod Receive
pub mod Framing
pub mod Content
pub mod RoundTrip
pub mod Delivery
pub mod Outcome
pub mod Cases
pub mod UserOutcome
pub mod Client
pub mod Leaving
pub mod Login
pub mod Refused
pub mod Retries
pub mod Mistyped
pub mod Reported
pub mod GoesOn
pub mod Session
pub mod Passes
pub mod Line
pub mod Size
pub mod Formed
pub mod Speaking
pub mod Replying
pub mod Answering
pub mod Authorized
pub mod SentStream
pub mod Loop
pub mod Heard
pub mod Gaps
pub mod Ended
