-- ===== src/Connect/Server.antt =====
-- The address and port that `getServerAddress` gives to the UDP handler.
use ipk.Common.{ℕ, ◌+◌, ◌*◌, ◌/◌, ◌%◌, ◌<◌, some, Option, ◌≡◌, ap, arith, Bytes}
use ipk.Connect.{get_server_address, endpoint}

joined : (port : ℕ) → port < 65536 → port / 256 % 256 * 256 + port % 256 ≡ port
joined port h = omega arith

-- Where `inet_pton` reads the server's address, that address is filled in, with the port.
pub endpoint-get_server_address :
    (inet_pton : Bytes → Option ℕ) (server_ip : Bytes) (port a : ℕ)
    → port < 65536
    → inet_pton server_ip ≡ some a
    → endpoint (get_server_address inet_pton server_ip port) ≡ a * 65536 + port
unfolding get_server_address
endpoint-get_server_address inet_pton server_ip port a h e =
    rw (e, get_server_address) (ap (λ p. a * 65536 + p) (joined port h))
