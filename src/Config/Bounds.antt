-- ===== src/Config/Bounds.antt =====
-- What the command line can make of the configuration, and which configurations `Validate` lets pass.
use ipk.Common.{
  ℕ, ◌<◌, false, ◌⊎◌, inl, inr, ◌↔◌, List, [], ◌∷◌, Option, none, some, ◌≡◌, ◌≢◌, refl, arith, ◌==◌,
  if_elim, lit, bytes_eq_iff,
}
use ipk.Config.{
  Config, validate, Found, Parsed, parsed, exits, undefined, with_number, atoi, set_option, parse,
}

-- The numbers fit the fields.
pub record InRange (c : Config) : Type 0 where
  pub port_fits : c.server_port < 65536
  pub timeout_fits : c.udp_confirmation_timeout < 65536
  pub retransmissions_fit : c.max_udp_retransmissions < 256

abbrev pub ParsedInRange : Parsed → Type 0
ParsedInRange (parsed c) = InRange c
ParsedInRange (exits n) = n ≡ 0 ⊎ n ≡ 1
ParsedInRange undefined = Unit

with_number-InRange :
    (o : Option ℕ) (f : ℕ → Config) → ((n : ℕ) → InRange (f n)) → ParsedInRange (with_number o f)
with_number-InRange none f h = tt
with_number-InRange (some n) f h = h n

set_option-InRange : (o : Found) (c : Config) → InRange c → ParsedInRange (set_option o c)
unfolding set_option
set_option-InRange o c h = if_elim ParsedInRange (o.option == b't') (ground arith) (
    if_elim ParsedInRange (o.option == b's') (ground arith) (
      if_elim ParsedInRange (o.option == b'p')
        (with_number-InRange (atoi o.optarg) _ (λ n. ground arith))
        (if_elim ParsedInRange (o.option == b'd')
          (with_number-InRange (atoi o.optarg) _ (λ n. ground arith))
          (if_elim ParsedInRange (o.option == b'r')
            (with_number-InRange (atoi o.optarg) _ (λ n. ground arith))
            (if_elim ParsedInRange (o.option == b'h') (inl refl) (inr refl))))))

-- Whatever options the command line has, the numbers fit their fields afterwards, if they did
-- before, and a process that ends early ends with status 0 or 1.
pub parse-InRange : (found : List Found) (c : Config) → InRange c → ParsedInRange (parse found c)
unfolding parse
parse-InRange [] c h = h
parse-InRange (o ∷ more) c h =
    go (λ d k. parse-InRange more d k) (set_option o c) (set_option-InRange o c h)
  where
    go :
        ((d : Config) → InRange d → ParsedInRange (parse more d))
        → (r : Parsed) → ParsedInRange r
        → ParsedInRange (elim r [
          | parsed d ↦ parse more d
          | exits status ↦ exits status
          | undefined ↦ undefined
        ])
    go rest (parsed d) k = rest d k
    go rest (exits n) k = k
    go rest undefined k = tt

-- A configuration passes `Validate` exactly if it has an address of the server, and its protocol is
-- "tcp", "udp" or empty.
pub validate_passes_iff :
    (c : Config)
    → ((validate c).exits ≡ false) ↔ (
        (c.server_ip ≢ [])
        × ((c.protocol ≡ lit "tcp") ⊎ ((c.protocol ≡ lit "udp") ⊎ (c.protocol ≡ []))))
unfolding validate
validate_passes_iff c = ground (
  arith,
  bytes_eq_iff c.protocol (lit "tcp"),
  bytes_eq_iff c.protocol (lit "udp"),
  bytes_eq_iff c.protocol [],
  bytes_eq_iff c.server_ip [],
)
