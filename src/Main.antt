-- ===== src/Main.antt =====
-- main.cpp: `main` up to the event loop (Program runs the loop too), and the choice of the handler that the constructor of
-- StreamHandler makes. What `getopt` finds and what `getaddrinfo` gives are arguments.
pub mod Program
pub mod Unanswered
pub mod Conversation
pub mod Unhandled
pub mod ChatCalls
pub mod Chat
pub mod Sessions
pub mod Outcomes
pub mod Sends
pub mod Reports
pub mod Authorized
pub mod Login
pub mod Sizes
pub mod Defined
use ipk.Common.{
  ℕ, Bool, true, false, List, [], Option, none, some, ◌≡◌, ◌≢◌, ◌⊎◌, inr, refl, arith,
  if◌then◌else◌, Bytes, lit, bytes_eq,
}
use ipk.Config.{Config, default_config, Found, Parsed, parsed, validate, parse}
use ipk.Config.Bounds.{InRange, ParsedInRange, parse-InRange, validate_passes_iff}
use ipk.Connect.{Address, connect_to_server}

-- `protocolHandler`: null where the protocol is neither of the two.
pub data Handler : Type 0 where
  null over_tcp over_udp : Handler

unfoldable pub choose_handler : Bytes → Handler
choose_handler protocol =
    if bytes_eq protocol (lit "tcp")
    then over_tcp
    else if bytes_eq protocol (lit "udp")
    then over_udp
    else null

-- The process has exited with this status, its behaviour is undefined, or the event loop is run with
-- this configuration, descriptor and handler.
pub data Started : Type 0 where
  exits : ℕ → Started
  undefined : Started
  runs : Config → ℕ → Handler → Started

abbrev pub Lookup : Type 0
Lookup = Bytes → ℕ → Option (List Address)

abbrev connected : Config → Option ℕ → Started
connected c none = exits 1
connected c (some fd) = runs c fd (choose_handler c.protocol)

abbrev configured : Lookup → Config → Started
configured lookup c =
    if (validate c).exits
    then exits 1
    else connected c (connect_to_server c.protocol (lookup c.server_ip c.server_port)).sockfd

abbrev after_parse : Lookup → Parsed → Started
after_parse lookup (parsed c) = configured lookup c
after_parse lookup (Parsed.exits status) = exits status
after_parse lookup Parsed.undefined = undefined

unfoldable pub main : Lookup → List Found → Started
main lookup found = after_parse lookup (parse found default_config)

-- What holds of a configuration that reaches the event loop, and of its handler.
pub record Sound (c : Config) (h : Handler) : Type 0 where
  pub in_range : InRange c
  pub has_server : c.server_ip ≢ []
  pub has_handler : (c.protocol ≢ []) → h ≢ null

abbrev pub SoundAt : Started → Type 0
SoundAt (exits status) = status ≡ 0 ⊎ status ≡ 1
SoundAt undefined = Unit
SoundAt (runs c fd h) = Sound c h

default-InRange : InRange default_config
unfolding default_config
default-InRange = record {
  port_fits = omega arith;
  timeout_fits = omega arith;
  retransmissions_fit = omega arith;
}

choose_handler-ne-null :
    (p : Bytes) → (p ≡ lit "tcp") ⊎ ((p ≡ lit "udp") ⊎ (p ≡ [])) → p ≢ [] → choose_handler p ≢ null
unfolding choose_handler bytes_eq lit
choose_handler-ne-null p h n = ground arith

configured-Sound : (lookup : Lookup) (c : Config) → InRange c → SoundAt (configured lookup c)
configured-Sound lookup c r = go (validate c).exits refl
  where
    at : (o : Option ℕ) → (validate c).exits ≡ false → SoundAt (connected c o)
    at none e = inr refl
    at (some fd) e =
        let (server, protocol) = (validate_passes_iff c).0 e in
        record {
          in_range = r;
          has_server = server;
          has_handler = λ n. choose_handler-ne-null c.protocol protocol n;
        }

    go :
        (b : Bool)
        → (validate c).exits ≡ b
        → SoundAt (
            if b
            then exits 1
            else connected c
                (connect_to_server c.protocol (lookup c.server_ip c.server_port)).sockfd)
    go true e = inr refl
    go false e = at _ e

-- For every command line: the process ends early with status 0 or 1, or `atoi` overflows, or the event
-- loop is run with numbers that fit their fields, an address of the server, and a protocol handler
-- unless the protocol is empty.
pub main-Sound : (lookup : Lookup) (found : List Found) → SoundAt (main lookup found)
unfolding main
main-Sound lookup found =
    go (parse found default_config) (parse-InRange found default_config default-InRange)
  where
    go : (r : Parsed) → ParsedInRange r → SoundAt (after_parse lookup r)
    go (parsed c) h = configured-Sound lookup c h
    go (Parsed.exits status) h = h
    go Parsed.undefined h = tt
