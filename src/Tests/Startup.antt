-- ===== src/Tests/Startup.antt =====
-- The command line and the connection at concrete inputs.
use ipk.Common.{
  ℕ, Bool, true, false, ◌↔◌, ◌⊎◌, List, [], ◌∷◌, ◌++◌, none, some, ◌≡◌, ◌≢◌, refl, inl, inr, arith,
  lit, bytes_eq,
}
use ipk.Config.{default_config, validate, Found, parsed, parse, set_option, atoi, digits_from}
use ipk.Config.Bounds.{InRange, validate_passes_iff}
use ipk.Main.{Lookup, main, runs, over_udp, choose_handler, SoundAt, main-Sound}
use ipk.Connect.{connect_to_server, Address, try_addresses}
use ipk.Connect.Order.{sockets, first_connection}

-- `-p 65537`, `-r -1`
abbrev options : List Found
options =
    record { option = b'p'; optarg = lit "65537" }
    ∷ record { option = b'r'; optarg = lit "-1" }
    ∷ []

options-parse :
    parse options default_config
    ≡ parsed (record (default_config) { server_port = 1; max_udp_retransmissions = 255 })
unfolding parse set_option atoi digits_from default_config lit
options-parse = refl

default-InRange : InRange default_config
unfolding default_config
default-InRange = record {
  port_fits = omega arith;
  timeout_fits = omega arith;
  retransmissions_fit = omega arith;
}

validate_passes_iff_example : ((validate default_config).exits ≡ false) ↔ (
    (default_config.server_ip ≢ [])
    × ((default_config.protocol ≡ lit "tcp")
        ⊎ ((default_config.protocol ≡ lit "udp") ⊎ (default_config.protocol ≡ []))))
validate_passes_iff_example = validate_passes_iff default_config

abbrev address : ℕ → Bool → Address
address fd connects = record { socket = some fd; connects = connects }

abbrev dead : List Address
dead = address 3 false ∷ record { socket = none; connects = true } ∷ address 4 false ∷ []

first_connection_example :
    try_addresses false (dead ++ address 5 true ∷ address 6 true ∷ [])
    ≡ record { sockfd = some 5; closed = sockets dead }
first_connection_example =
    first_connection dead (address 6 true ∷ []) (address 5 true) 5
      (inr refl, (inl refl, (inr refl, tt))) refl refl

-- `-t udp -s ::1`
abbrev pub udp_options : List Found
udp_options =
    record { option = b't'; optarg = lit "udp" } ∷ record { option = b's'; optarg = lit "::1" } ∷ []

abbrev pub found_address : Lookup
found_address name port = some (address 3 false ∷ [])

pub main-runs :
    main found_address udp_options
    ≡ runs (record (default_config) { protocol = lit "udp"; server_ip = lit "::1" }) 3 over_udp
unfolding main parse set_option validate bytes_eq choose_handler connect_to_server try_addresses
    default_config lit
main-runs = refl

main-Sound_example : SoundAt (main found_address udp_options)
main-Sound_example = main-Sound found_address udp_options
