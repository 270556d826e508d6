-- ===== src/Connect/Order.antt =====
-- Which socket `connectToServer` returns, and which ones it closes.
use ipk.Common.{ℕ, true, false, ◌⊎◌, List, [], ◌∷◌, ◌++◌, none, some, ◌≡◌, refl, arith, All}
use ipk.Connect.{Address, try_addresses}

-- No connection comes of the address.
abbrev pub Refuses : Address → Type 0
Refuses p = (p.socket ≡ none) ⊎ (p.connects ≡ false)

-- The descriptors that `socket` gives for these addresses.
abbrev pub sockets : List Address → List ℕ
sockets [] = []
sockets (p ∷ l) = elim p.socket [ none ↦ sockets l | some fd ↦ fd ∷ sockets l ]

-- TCP: the first address that connects is the one whose socket is returned, open. The sockets that
-- were made before it are closed, and no later address is tried.
pub first_connection :
    (refusing later : List Address) (p : Address) (fd : ℕ)
    → All Refuses refusing
    → p.socket ≡ some fd
    → p.connects ≡ true
    → try_addresses false (refusing ++ p ∷ later)
      ≡ record { sockfd = some fd; closed = sockets refusing }
unfolding try_addresses
first_connection [] later p fd h s c = ground arith
first_connection (q ∷ l) later p fd (h, hs) s c =
    ground (arith, first_connection l later p fd hs s c)

-- TCP: if no address connects, -1 is returned, and every socket that was made is closed.
no_connection :
    (refusing : List Address)
    → All Refuses refusing
    → try_addresses false refusing ≡ record { sockfd = none; closed = sockets refusing }
unfolding try_addresses
no_connection [] h = refl
no_connection (q ∷ l) (h, hs) = ground (arith, no_connection l hs)
