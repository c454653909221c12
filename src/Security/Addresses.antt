-- ===== src/Security/Addresses.antt =====
-- lib/security/safe-fetch.ts: the addresses that are refused. `isIP` of node:net and the texts of the
-- addresses are left out: an IPv4 address is its four parts, an IPv6 address the eight groups that
-- `expandIpv6` makes of it. The bit operators work on 32 bits, and `>>> 0` makes them natural.
pub mod Laws
use zernflow.Base.{
  ℕ, ◌+◌, ◌-◌, ◌*◌, ◌/◌, ◌%◌, ◌^◌, Bool, true, false, not, ◌&&◌, ◌||◌, Option, none, some, List, [],
  ◌∷◌, if◌then◌else◌, ◌==◌, any,
}

pub record Ipv4 : Type 0 where
  pub a : ℕ
  pub b : ℕ
  pub c : ℕ
  pub d : ℕ

-- `(acc << 8) + Number(part)` over the parts, `>>> 0`; the four parts of an address stay below 256,
-- so the sum is that of the shifts, without the wrap-around of each.
unfoldable pub ipv4_to_int : Ipv4 → ℕ
ipv4_to_int i = (((i.a * 256 + i.b) * 256 + i.c) * 256 + i.d) % 2 ^ 32

-- `value & mask`, where the mask keeps the first `bits` of 32.
abbrev pub prefix : ℕ → ℕ → ℕ
prefix value bits = value / 2 ^ (32 - bits)

abbrev pub range : ℕ → ℕ → ℕ → ℕ → ℕ → Ipv4 × ℕ
range a b c d bits = (record { a = a; b = b; c = c; d = d }, bits)

abbrev pub blocked_v4 : List (Ipv4 × ℕ)
blocked_v4 =
    range 0 0 0 0 8
    ∷ range 10 0 0 0 8
    ∷ range 100 64 0 0 10
    ∷ range 127 0 0 0 8
    ∷ range 169 254 0 0 16
    ∷ range 172 16 0 0 12
    ∷ range 192 0 0 0 24
    ∷ range 192 0 2 0 24
    ∷ range 192 88 99 0 24
    ∷ range 192 168 0 0 16
    ∷ range 198 18 0 0 15
    ∷ range 198 51 100 0 24
    ∷ range 203 0 113 0 24
    ∷ range 224 0 0 0 4
    ∷ range 240 0 0 0 4
    ∷ []

abbrev pub in_range : Ipv4 → Ipv4 × ℕ → Bool
in_range i (base, bits) = prefix (ipv4_to_int i) bits == prefix (ipv4_to_int base) bits

unfoldable pub is_blocked_ipv4 : Ipv4 → Bool
unfolding ipv4_to_int
is_blocked_ipv4 i = any (in_range i) blocked_v4

-- The groups of an IPv6 address.
pub record Ipv6 : Type 0 where
  pub p0 : ℕ
  pub p1 : ℕ
  pub p2 : ℕ
  pub p3 : ℕ
  pub p4 : ℕ
  pub p5 : ℕ
  pub p6 : ℕ
  pub p7 : ℕ

-- `${parts[6] >> 8}.${parts[6] & 255}.${parts[7] >> 8}.${parts[7] & 255}`
abbrev pub embedded : Ipv6 → Ipv4
embedded i = record { a = i.p6 / 256; b = i.p6 % 256; c = i.p7 / 256; d = i.p7 % 256 }

abbrev pub zero_prefix : Ipv6 → Bool
zero_prefix i = i.p0 == 0 && i.p1 == 0 && i.p2 == 0 && i.p3 == 0 && i.p4 == 0

-- The tests of the groups, in their order: a mask keeps the first bits of a group.
unfoldable pub is_blocked_groups : Ipv6 → Bool
is_blocked_groups i =
    if zero_prefix i && i.p5 == 65535
    then is_blocked_ipv4 (embedded i)
    else if zero_prefix i && i.p5 == 0 && i.p6 == 0 && i.p7 == 0
    then true
    else if zero_prefix i && i.p5 == 0 && i.p6 == 0 && i.p7 == 1
    then true
    else if i.p0 / 512 == 64512 / 512
    then true
    else if i.p0 / 64 == 65152 / 64
    then true
    else if i.p0 / 256 == 65280 / 256
    then true
    else if i.p0 == 8193 && i.p1 == 3512
    then true
    else if i.p0 == 100 && i.p1 == 65435
    then is_blocked_ipv4 (embedded i)
    else zero_prefix i && i.p5 == 0

-- An address whose groups `expandIpv6` does not find is blocked.
unfoldable pub is_blocked_ipv6 : Option Ipv6 → Bool
unfolding is_blocked_groups
is_blocked_ipv6 none = true
is_blocked_ipv6 (some i) = is_blocked_groups i

-- What `isIP` says an address is.
pub data Address : Type 0 where
  version4 : Ipv4 → Address
  version6 : Option Ipv6 → Address
  no_address : Address

unfoldable pub is_blocked_address : Address → Bool
is_blocked_address (version4 i) = is_blocked_ipv4 i
is_blocked_address (version6 i) = is_blocked_ipv6 i
is_blocked_address no_address = true

-- What `guardedLookup` answers: an error, or the addresses to connect to.
pub data Lookup : Type 0 where
  resolver_failed not_resolved not_allowed : Lookup
  connect_to : List Address → Lookup

-- The check of the addresses that a name resolves to, unless its host is allowed. The resolver can
-- fail, and the caller asks for all of the addresses or takes the first of them.
unfoldable pub guarded_lookup : Bool → Bool → Option (List Address) → Lookup
guarded_lookup allow wants_all none = resolver_failed
guarded_lookup allow wants_all (some []) = not_resolved
guarded_lookup allow wants_all (some (first ∷ rest)) =
    if any is_blocked_address (first ∷ rest) && not allow
    then not_allowed
    else if wants_all
    then connect_to (first ∷ rest)
    else connect_to (first ∷ [])
