-- ===== src/Config.antt =====
-- Config.h, Config.cpp and Parser.cpp: the configuration and how the command line fills it.
pub mod Bounds
use ipk.Common.{
  ℕ, ◌+◌, ◌-◌, ◌*◌, ◌%◌, Bool, true, false, not, ◌&&◌, ◌||◌, List, [], ◌∷◌, ◌++◌, Option, none,
  some, leb, ◌==◌, if◌then◌else◌, Bytes, lit, bytes_eq,
}

pub record Config : Type 0 where
  pub protocol : Bytes
  pub server_ip : Bytes
  pub server_port : ℕ  -- uint16
  pub udp_confirmation_timeout : ℕ  -- uint16
  pub max_udp_retransmissions : ℕ  -- uint8

unfoldable pub default_config : Config
default_config = record {
  protocol = [];
  server_ip = [];
  server_port = 4567;
  udp_confirmation_timeout = 250;
  max_udp_retransmissions = 3;
}

-- What `Validate` prints, and whether it then ends the process.
pub record Verdict : Type 0 where
  pub printed : List Bytes
  pub exits : Bool

abbrev check_server_ip : List Bytes → Config → Verdict
check_server_ip printed c =
    if bytes_eq c.server_ip []
    then record { printed = printed ++ lit "Server IP is required" ∷ []; exits = true }
    else record { printed = printed; exits = false }

unfoldable pub validate : Config → Verdict
validate c =
    if not (bytes_eq c.protocol (lit "tcp")) && not (bytes_eq c.protocol (lit "udp"))
    then (if bytes_eq c.protocol []
        then check_server_ip (lit "Protocol is required" ∷ []) c
        else record {
          printed = (lit "Invalid protocol provided " ++ c.protocol) ∷ [];
          exits = true;
        })
    else check_server_ip [] c

abbrev is_digit : ℕ → Bool
is_digit c = leb b'0' c && leb c b'9'

-- `isspace` in the "C" locale.
abbrev is_space : ℕ → Bool
is_space c = c == b' ' || (leb 9 c && leb c 13)

-- The number that the leading digits spell.
unfoldable pub digits_from : ℕ → Bytes → ℕ
digits_from n [] = n
digits_from n (c ∷ s) = elim (is_digit c) [ true ↦ digits_from (n * 10 + (c - b'0')) s | false ↦ n ]

-- An `int` as its pattern of 32 bits; where the number does not fit, `atoi` is undefined.
abbrev positive : ℕ → Option ℕ
positive n = if leb n 2147483647 then some n else none

abbrev negative : ℕ → Option ℕ
negative n = if leb n 2147483648 then some ((4294967296 - n) % 4294967296) else none

abbrev atoi_signed : Bytes → Option ℕ
atoi_signed [] = some 0
atoi_signed (c ∷ s) =
    if c == b'-'
    then negative (digits_from 0 s)
    else if c == b'+'
    then positive (digits_from 0 s)
    else positive (digits_from 0 (c ∷ s))

unfoldable pub atoi : Bytes → Option ℕ
unfolding digits_from
atoi [] = some 0
atoi (c ∷ s) = elim (is_space c) [ true ↦ atoi s | false ↦ atoi_signed (c ∷ s) ]

-- One option that `getopt` finds: its character and `optarg`.
pub record Found : Type 0 where
  pub option : ℕ
  pub optarg : Bytes

-- The configuration, or the status with which the process ends, or undefined behaviour.
pub data Parsed : Type 0 where
  parsed : Config → Parsed
  exits : ℕ → Parsed
  undefined : Parsed

abbrev pub with_number : Option ℕ → (ℕ → Config) → Parsed
with_number none f = undefined
with_number (some n) f = parsed (f n)

-- The `switch` on one option.
unfoldable pub set_option : Found → Config → Parsed
unfolding atoi
set_option o c =
    if o.option == b't'
    then parsed (record c { protocol = o.optarg })
    else if o.option == b's'
    then parsed (record c { server_ip = o.optarg })
    else if o.option == b'p'
    then with_number (atoi o.optarg) (λ n. record c { server_port = n % 65536 })
    else if o.option == b'd'
    then with_number (atoi o.optarg) (λ n. record c { udp_confirmation_timeout = n % 65536 })
    else if o.option == b'r'
    then with_number (atoi o.optarg) (λ n. record c { max_udp_retransmissions = n % 256 })
    else if o.option == b'h'
    then exits 0
    else exits 1

-- The loop over what `getopt` finds until it returns -1.
unfoldable pub parse : List Found → Config → Parsed
unfolding set_option
parse [] c = parsed c
parse (o ∷ more) c = elim (set_option o c) [
  | parsed d ↦ parse more d
  | exits status ↦ exits status
  | undefined ↦ undefined
]
