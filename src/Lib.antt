-- ===== src/Lib.antt =====
-- IPK24-CHAT client: a chat client over TCP and UDP, with its state machine, its validators, its
-- protocol handlers and its event loop.
--
-- How the parts work together. `main` parses the command line into a Config, checks it, connects, and
-- runs the event loop of StreamHandler. In each round the loop calls `poll`, and then one method of the
-- ProtocolHandler: `process_server_message`, `process_user_input` or `resend_last_message`. The
-- method's ClientState says whether the loop reads the standard input and whether it has a timeout.
-- Both handlers ask FSMValidate whether an action is allowed, and a validator whether the fields are
-- well formed and which bytes are sent.
--
-- Files and what they model:
--   Fsm            FSMValidate.h, FSMValidate.cpp. `validate_action` with `check_expected_action` and
--                  `get_source`; the switch is `switch_state`. Diagram is the protocol's own table.
--                  Login reads off a list of inputs how far it lets the machine come.
--   Text, Grammar  the operations of std::string and <cctype> that are used, and `split_message`,
--                  `validate_id`, `validate_secret`, `validate_content` and `validate_dname` of
--                  TCPMessageValidator.cpp.
--   Protocol       ProtocolHandler.h: ClientState; the effects, and how a method ends.
--   ClientOutput   ClientOutput.cpp.
--   Tcp            TCPMessageValidator.cpp (Validator), TCPProtocolHandler.cpp: `process_user_input`
--                  (Handler), `process_received` (Received), `process_server_message` (Receive).
--                  Line says which lines the protocol has, Passes which input asks the machine for
--                  which action; Authorized keeps the list of inputs beside a session, and Retries
--                  uses it for a login that the server refuses. Heard keeps it beside the event loop,
--                  with what the buffer was filled from.
--   Udp            UDPMessageValidator.cpp (Fields, Validator), UDPProtocolHandler.h and .cpp: what
--                  is sent and `process_user_input` (Handler), `process_received` and
--                  `process_server_message` (Received). Wire says which datagrams the protocol has,
--                  Sequence is a sender that numbers its datagrams, with no handler in it. Passes and
--                  Authorized are as in Tcp.
--   Stream         StreamHandler.h, StreamHandler.cpp: `run_event_loop`, for any handler;
--                  Udp/Client and Tcp/Client put the two handlers into it. Invariant and Methods
--                  carry a property of a handler's methods to every run of the loop; Udp/Loop and
--                  Tcp/Loop, Udp/Waiting use them.
--   Interrupt      interruptSignal.h, interruptSignal.cpp, and which return of `poll` sees the flag.
--   Commands       the tests by which both `process_user_input` tell the user's lines apart.
--   Config         Config.h, Config.cpp, Parser.cpp.
--   Connect        connectToServer.cpp: `connectToServer` and `getServerAddress`.
--   Main           main.cpp up to the event loop, and the choice in the constructor of
--                  StreamHandler.h; Main/Program is the whole run, with the event loop. Main/Sessions
--                  relates its runs to the sessions of Tcp/Session and Udp/Session, which know
--                  neither the loop nor the buffer, and Main/Login and Main/Authorized the inputs of
--                  a TCP and of a UDP session to what `poll` reported.
--   Common         shared tests, lists and byte strings.
--   Tests          runs and instances.
--
-- State. A handler's object is a record, which a method takes and returns, with a log of what the process
-- did outside: bytes sent, lines printed, sockets closed. The static buffer of the TCP
-- `process_server_message` is a text beside the object. A method ends by `returns`, by `exits` (the
-- process ends with EXIT_FAILURE) or by `undefined`: no return is reached, or an element that is not
-- there is read. In the state machine and the validators undefined behaviour is `none`.
-- `previousState` is an Option, since the constructor does not set it.
--
-- Numbers. An identifier of a message is a uint16 and wraps at 65536; -1 stored in it is 65535. An `int`
-- that `atoi` gives is its pattern of 32 bits, cut to 16 or 8 bits by the casts.
--
-- Parameters. `Network` says whether a send succeeds, from the log and the bytes. What `recv`,
-- `recvfrom`, `poll`, `getopt`, `getaddrinfo`, `inet_pton`, `socket` and `connect` give, and which
-- signals come, are arguments: a list of results. The texts of errno behind the words of `perror`
-- are left out.
--
-- Fuel. The loop over the TCP buffer takes one more step than the buffer has bytes. Every message found
-- takes two bytes off the buffer at least, so that the fuel never runs out. The other loops are
-- structural recursion over their input.
--
-- Characters. `isalnum`, `isprint` and `toupper` get a `char`, which is negative for a byte above 127 where
-- it is signed, and the C standard does not say what they answer then. The model takes the answers of
-- glibc. That is no part of `undefined`, so that what is proved of undefined behaviour keeps to bytes up
-- to 127.
--
-- Not modelled. SIGPIPE, by which a `send` on a broken TCP connection may end the process. The registration of `signal_handler` in `main`. The usage text of Parser.cpp, and the
-- messages of connectToServer.cpp and of `main`. A signal that interrupts any other call than `poll`.
-- Threads: there are none.
pub mod Common
pub mod Fsm
pub mod Text
pub mod Grammar
pub mod Commands
pub mod Protocol
pub mod ClientOutput
pub mod Tcp
pub mod Udp
pub mod Stream
pub mod Config
pub mod Connect
pub mod Interrupt
pub mod Main
pub mod Tests
