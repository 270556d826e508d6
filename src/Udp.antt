-- ===== src/Udp.antt =====
-- UDPMessageValidator.cpp (Fields, Validator), UDPProtocolHandler.cpp (Handler, Received).
pub mod Fields
pub mod Validator
pub mod Handler
pub mod Received
pub mod Sending
pub mod Awaited
pub mod Confirmed
pub mod Session
pub mod RoundTrip
pub mod Remembered
pub mod Duplicates
pub mod AtMostOnce
pub mod Client
pub mod Leaving
pub mod Unexpected
pub mod Recovery
pub mod Farewell
pub mod Postponed
pub mod Sequence
pub mod Passes
pub mod Wire
pub mod Size
pub mod Formed
pub mod SpeakingSends
pub mod Speaking
pub mod Replying
pub mod Answering
pub mod Authorized
pub mod Loop
pub mod Waiting
pub mod Exchange
pub mod Cases
pub mod Outcome
pub mod Safety
pub mod Definedness
pub mod Login
pub mod Gaps
