-- ===== src/Security/Tests.antt =====
-- The addresses at concrete inputs.
use zernflow.Base.{
  ◌≡◌, ◌≢◌, refl, true, false, some, List, [], ◌∷◌, if◌then◌else◌, take, All, arith,
}
use zernflow.Security.Addresses.{
  Ipv4, Ipv6, embedded, is_blocked_ipv4, ipv4_to_int, is_blocked_address, Address, version4,
  guarded_lookup, connect_to,
}
use zernflow.Security.Addresses.Laws.{is_private, is_blocked_ipv4-is_private, guarded_lookup-All}

abbrev metadata : Ipv4
metadata = record { a = 169; b = 254; c = 169; d = 254 }

-- ::ffff:169.254.169.254
abbrev mapped : Ipv6
mapped = record { p0 = 0; p1 = 0; p2 = 0; p3 = 0; p4 = 0; p5 = 65535; p6 = 43518; p7 = 43518 }

abbrev public : Ipv4
public = record { a = 93; b = 184; c = 216; d = 34 }

is_blocked_ipv4-is_private_example : is_blocked_ipv4 metadata ≡ is_private metadata
is_blocked_ipv4-is_private_example =
    is_blocked_ipv4-is_private metadata (omega arith, omega arith, omega arith, omega arith)

mapped_blocked : is_blocked_ipv4 (embedded mapped) ≡ true
unfolding is_blocked_ipv4 ipv4_to_int
mapped_blocked = refl

abbrev public_addresses : List Address
public_addresses = version4 public ∷ version4 public ∷ []

public_lookup :
    guarded_lookup false false (some public_addresses) ≡ connect_to (version4 public ∷ [])
unfolding guarded_lookup is_blocked_address is_blocked_ipv4 ipv4_to_int
public_lookup = refl

guarded_lookup-All_example :
    (addresses : List Address) × (some public_addresses ≡ some addresses)
    × (version4 public ∷ [] ≢ [])
    × (version4 public ∷ [] ≡ (if false then addresses else take 1 addresses))
    × All (λ a. is_blocked_address a ≡ false) addresses
guarded_lookup-All_example =
    guarded_lookup-All false (some public_addresses) (version4 public ∷ []) public_lookup
