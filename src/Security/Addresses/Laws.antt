-- ===== src/Security/Addresses/Laws.antt =====
-- No request reaches a private address.
use zernflow.Base.{
  ℕ, ◌+◌, ◌*◌, ◌/◌, ◌<◌, ◌≡◌, ◌≢◌, ◌⊎◌, inl, inr, refl, Bool, true, false, ◌&&◌, ◌||◌, Option, none,
  some, List, [], ◌∷◌, if◌then◌else◌, take, arith, ◌==◌, any, All, Bool-cases, leb, ltb,
}
use zernflow.Security.Addresses.{
  Ipv4, Ipv6, prefix, ipv4_to_int, is_blocked_ipv4, is_blocked_groups, is_blocked_ipv6, Address,
  is_blocked_address, connect_to, guarded_lookup, embedded, zero_prefix,
}

abbrev pub IsIpv4 : Ipv4 → Type 0
IsIpv4 i = (i.a < 256) × (i.b < 256) × (i.c < 256) × (i.d < 256)

-- The private and reserved addresses by their parts.
abbrev pub is_private : Ipv4 → Bool
is_private i =
    any (λ b. b)
      ((i.a == 0)
        ∷ (i.a == 10)
        ∷ (i.a == 100 && leb 64 i.b && ltb i.b 128)
        ∷ (i.a == 127)
        ∷ (i.a == 169 && i.b == 254)
        ∷ (i.a == 172 && leb 16 i.b && ltb i.b 32)
        ∷ (i.a == 192 && i.b == 0 && i.c == 0)
        ∷ (i.a == 192 && i.b == 0 && i.c == 2)
        ∷ (i.a == 192 && i.b == 88 && i.c == 99)
        ∷ (i.a == 192 && i.b == 168)
        ∷ (i.a == 198 && leb 18 i.b && ltb i.b 20)
        ∷ (i.a == 198 && i.b == 51 && i.c == 100)
        ∷ (i.a == 203 && i.b == 0 && i.c == 113)
        ∷ (leb 224 i.a && ltb i.a 240)
        ∷ (leb 240 i.a && ltb i.a 256)
        ∷ [])

abbrev value : Ipv4 → ℕ
value i = ((i.a * 256 + i.b) * 256 + i.c) * 256 + i.d

value-ipv4_to_int : (i : Ipv4) → IsIpv4 i → ipv4_to_int i ≡ value i
unfolding ipv4_to_int
value-ipv4_to_int i h = omega (arith, h.0, h.1, h.2, h.3)

module _ (i : Ipv4) (h : IsIpv4 i) where
  prefix-4 : prefix (value i) 4 ≡ i.a / 16
  prefix-4 = omega (arith, h.0, h.1, h.2, h.3)

  prefix-8 : prefix (value i) 8 ≡ i.a
  prefix-8 = omega (arith, h.0, h.1, h.2, h.3)

  prefix-10 : prefix (value i) 10 ≡ i.a * 4 + i.b / 64
  prefix-10 = omega (arith, h.0, h.1, h.2, h.3)

  prefix-12 : prefix (value i) 12 ≡ i.a * 16 + i.b / 16
  prefix-12 = omega (arith, h.0, h.1, h.2, h.3)

  prefix-15 : prefix (value i) 15 ≡ i.a * 128 + i.b / 2
  prefix-15 = omega (arith, h.0, h.1, h.2, h.3)

  prefix-16 : prefix (value i) 16 ≡ i.a * 256 + i.b
  prefix-16 = omega (arith, h.0, h.1, h.2, h.3)

  prefix-24 : prefix (value i) 24 ≡ (i.a * 256 + i.b) * 256 + i.c
  prefix-24 = omega (arith, h.0, h.1, h.2, h.3)

  test-10 : (i.a * 4 + i.b / 64 == 401) ≡ (i.a == 100 && leb 64 i.b && ltb i.b 128)
  test-10 = let b = h.1 in ground arith

  test-16 : (m n : ℕ) → n < 256 → (i.a * 256 + i.b == m * 256 + n) ≡ (i.a == m && i.b == n)
  test-16 m n k = let b = h.1 in ground arith

  test-12 : (i.a * 16 + i.b / 16 == 2753) ≡ (i.a == 172 && leb 16 i.b && ltb i.b 32)
  test-12 = let b = h.1 in ground arith

  test-24 :
      (m n o : ℕ)
      → n < 256
      → o < 256
      → ((i.a * 256 + i.b) * 256 + i.c == (m * 256 + n) * 256 + o)
        ≡ (i.a == m && i.b == n && i.c == o)
  test-24 m n o k l = let b = h.1 in let c = h.2 in ground arith

  test-15 : (i.a * 128 + i.b / 2 == 25353) ≡ (i.a == 198 && leb 18 i.b && ltb i.b 20)
  test-15 = let b = h.1 in ground arith

  test-4 : (n : ℕ) → (i.a / 16 == n) ≡ (leb (n * 16) i.a && ltb i.a (n * 16 + 16))
  test-4 n = ground arith

-- An IPv4 address that is written as an IPv6 one, mapped or translated, is blocked if it is blocked
-- itself.
pub embedded-is_blocked :
    (i : Ipv6)
    → is_blocked_ipv4 (embedded i) ≡ true
    → ((zero_prefix i ≡ true) × (i.p5 ≡ 65535)) ⊎ ((i.p0 ≡ 100) × (i.p1 ≡ 65435))
    → is_blocked_address (Address.version6 (some i)) ≡ true
unfolding is_blocked_address is_blocked_ipv6 is_blocked_groups
embedded-is_blocked i h c = ground arith

both : {a b c d : Bool} → a ≡ b → c ≡ d → (a || c) ≡ (b || d)
both h k = rw (h, k)

-- An IPv4 address is blocked exactly if its parts are those of a private or reserved range.
pub is_blocked_ipv4-is_private : (i : Ipv4) → IsIpv4 i → is_blocked_ipv4 i ≡ is_private i
unfolding is_blocked_ipv4 ipv4_to_int
is_blocked_ipv4-is_private i h =
    rw
      (
        value-ipv4_to_int i h,
        prefix-4 i h,
        prefix-8 i h,
        prefix-10 i h,
        prefix-12 i h,
        prefix-15 i h,
        prefix-16 i h,
        prefix-24 i h,
      )
      (both refl (
        both refl (
          both (test-10 i h) (
            both refl (
              both (test-16 i h 169 254 (omega arith)) (
                both (test-12 i h) (
                  both (test-24 i h 192 0 0 (omega arith) (omega arith)) (
                    both (test-24 i h 192 0 2 (omega arith) (omega arith)) (
                      both (test-24 i h 192 88 99 (omega arith) (omega arith)) (
                        both (test-16 i h 192 168 (omega arith)) (
                          both (test-15 i h) (
                            both (test-24 i h 198 51 100 (omega arith) (omega arith)) (
                              both (test-24 i h 203 0 113 (omega arith) (omega arith))
                                (both (test-4 i h 14) (both (test-4 i h 15) refl)))))))))))))))

none_blocked :
    (as' : List Address)
    → any is_blocked_address as' ≡ false
    → All (λ a. is_blocked_address a ≡ false) as'
none_blocked [] h = tt
none_blocked (a ∷ as') h = (ground arith, none_blocked as' (ground arith))

connected :
    (wants_all : Bool) (first : Address) (rest found : List Address)
    → (if wants_all then connect_to (first ∷ rest) else connect_to (first ∷ [])) ≡ connect_to found
    → (found ≢ []) × (found ≡ (if wants_all then first ∷ rest else first ∷ []))
connected true first rest found e = let same : found ≡ first ∷ rest = cc in ((λ empty. cc), same)
connected false first rest found e = let same : found ≡ first ∷ [] = cc in ((λ empty. cc), same)

-- A name whose host is not allowed is connected to only if the resolver gave addresses of which none
-- is blocked, also not one that is not connected to, and then to all of them or to the first, as the
-- caller asked for.
pub guarded_lookup-All :
    (wants_all : Bool) (resolved : Option (List Address)) (found : List Address)
    → guarded_lookup false wants_all resolved ≡ connect_to found
    → (addresses : List Address) × (resolved ≡ some addresses)
      × (found ≢ [])
      × (found ≡ (if wants_all then addresses else take 1 addresses))
      × All (λ a. is_blocked_address a ≡ false) addresses
unfolding guarded_lookup
guarded_lookup-All wants_all none found e = absurd (ground arith)
guarded_lookup-All wants_all (some []) found e = absurd (ground arith)
guarded_lookup-All wants_all (some (first ∷ rest)) found e =
    elim (Bool-cases (any is_blocked_address (first ∷ rest))) [
      | inl some' ↦ absurd (ground arith)
      | inr none' ↦
          let reached = connected wants_all first rest found (rw none' at e) in
          (first ∷ rest, refl, reached.0, reached.1, none_blocked (first ∷ rest) none')
    ]
