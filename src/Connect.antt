-- ===== src/Connect.antt =====
-- connectToServer.cpp: `connectToServer` and `getServerAddress`. What the operating system and
-- `inet_pton` answer is an argument.
pub mod Order
pub mod Server
use ipk.Common.{
  ◌+◌, ◌*◌, ◌/◌, ◌%◌, get_or, ℕ, Bool, true, false, List, [], ◌∷◌, Option, none, some,
  if◌then◌else◌, Bytes, lit, bytes_eq,
}

-- One `addrinfo` structure: what `socket` returns for it, `none` for -1, and whether `connect` to its
-- address succeeds.
pub record Address : Type 0 where
  pub socket : Option ℕ
  pub connects : Bool

-- The descriptor returned, `none` for -1, and the descriptors closed, in order.
pub record Connection : Type 0 where
  pub sockfd : Option ℕ
  pub closed : List ℕ

abbrev closing : ℕ → Connection → Connection
closing fd c = record c { closed = fd ∷ c.closed }

-- The loop over the list of structures; the flag is `config.protocol == "udp"`.
unfoldable pub try_addresses : Bool → List Address → Connection
try_addresses udp [] = record { sockfd = none; closed = [] }
try_addresses true (p ∷ more) = record { sockfd = p.socket; closed = [] }
try_addresses false (p ∷ more) =
    let rest = try_addresses false more in
    elim p.socket [
      | none ↦ rest
      | some fd ↦ if p.connects then record { sockfd = some fd; closed = [] } else closing fd rest
    ]

-- `lookup` is what `getaddrinfo` gives; `none` is an error.
unfoldable pub connect_to_server : Bytes → Option (List Address) → Connection
connect_to_server protocol none = record { sockfd = none; closed = [] }
connect_to_server protocol (some addresses) =
    try_addresses (bytes_eq protocol (lit "udp")) addresses

-- `struct sockaddr_in`. The port is two bytes in network order, the address a number of 32 bits.
pub record SockaddrIn : Type 0 where
  pub sin_family : ℕ
  pub sin_port : Bytes
  pub sin_addr : ℕ

-- What `memset` leaves.
abbrev zeroed : SockaddrIn
zeroed = record { sin_family = 0; sin_port = 0 ∷ 0 ∷ []; sin_addr = 0 }

-- AF_INET
abbrev pub af_inet : ℕ
af_inet = 2

-- `htons`, as the bytes that it stores.
abbrev pub htons : ℕ → Bytes
htons port = port / 256 % 256 ∷ port % 256 ∷ []

-- `inet_pton` stores an address only if it can read one.
unfoldable pub get_server_address : (Bytes → Option ℕ) → Bytes → ℕ → SockaddrIn
get_server_address inet_pton server_ip server_port =
    let server_address = record (zeroed) { sin_family = af_inet; sin_port = htons server_port } in
    elim (inet_pton server_ip) [
      | none ↦ server_address
      | some a ↦ record server_address { sin_addr = a }
    ]

-- The number by which the UDP handler's model names an address and a port.
abbrev pub endpoint : SockaddrIn → ℕ
endpoint a = a.sin_addr * 65536 + (get_or a.sin_port 0 0 * 256 + get_or a.sin_port 1 0)
