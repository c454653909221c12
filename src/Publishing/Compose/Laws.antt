-- ===== src/Publishing/Compose/Laws.antt =====
-- When a variant has no issue, and where its link is.
use zernflow.Base.{
  ℕ, ◌≤◌, ◌≡◌, ◌≢◌, refl, ◌↔◌, ◌⊎◌, inl, inr, true, false, not, ◌||◌, some, List, [], ◌∷◌, ◌++◌,
  arith, if◌then◌else◌, any, all, length, filter, Bool-cases, ==_refl,
}
use zernflow.Base.Json.{Text, starts_with}
use zernflow.Publishing.Modes.{ContentKind, same_kind}
use zernflow.Publishing.Compose.{
  PlatformProfile, includes, is_accepted, is_empty, links_to, compose_text, validate_variant,
}

abbrev pub IsPublishable :
    (Text → Text) → (Text → ℕ) → PlatformProfile → Text → ContentKind → List Text → Type 0
IsPublishable trim text_length p text kind media =
    ((trim text ≢ []) ⊎ (media ≢ []))
    × (text_length text ≤ p.max_text_length)
    × (any (same_kind kind) p.content_kinds ≡ true)
    × ((p.requires_media ≡ false) ⊎ (media ≢ []))
    × (length media ≤ p.max_media)
    × (all (is_accepted p) media ≡ true)

is_empty_iff : (xs : Text) → (is_empty xs ≡ true) ↔ (xs ≡ [])
is_empty_iff [] = ((λ e. refl), (λ e. refl))
is_empty_iff (x ∷ xs) = ((λ e. absurd (ground arith)), (λ e. absurd (ground arith)))

is_empty-media_iff : (xs : List Text) → (is_empty xs ≡ true) ↔ (xs ≡ [])
is_empty-media_iff [] = ((λ e. refl), (λ e. refl))
is_empty-media_iff (x ∷ xs) = ((λ e. absurd (ground arith)), (λ e. absurd (ground arith)))

starts_with_self : (s : Text) → starts_with s s ≡ true
starts_with_self [] = refl
starts_with_self (c ∷ cs) = let rest = starts_with_self cs in ground (arith, ==_refl c)

includes_self : (s : Text) → includes s s ≡ true
includes_self [] = refl
includes_self (c ∷ cs) = let rest = starts_with_self (c ∷ cs) in ground arith

includes-append : (s t part : Text) → includes t part ≡ true → includes (s ++ t) part ≡ true
includes-append [] t part h = h
includes-append (c ∷ cs) t part h = let rest = includes-append cs t part h in ground arith

rejected-none :
    (p : PlatformProfile) (media : List Text)
    → is_empty (filter (λ m. not (is_accepted p m)) media) ≡ all (is_accepted p) media
rejected-none p [] = refl
rejected-none p (m ∷ ms) = elim (Bool-cases (is_accepted p m)) [
  | inl yes' ↦ rw yes' (rejected-none p ms)
  | inr no' ↦ rw no' refl
]

module _ (trim : Text → Text) (text_length : Text → ℕ) where
  composed :
      (body : Text) (c : ℕ) (cs : Text) (p : PlatformProfile)
      → compose_text trim text_length body (some (c ∷ cs)) (some p) ≡ (
          if not p.supports_links || includes (trim body) (c ∷ cs)
          then trim body
          else trim body ++ (10 ∷ 10 ∷ c ∷ cs))
  unfolding compose_text links_to
  composed body c cs p = elim (Bool-cases (not p.supports_links || includes (trim body) (c ∷ cs))) [
    | inl plain ↦ rw (plain, compose_text) refl
    | inr linked ↦ rw (linked, compose_text) refl
  ]

  -- A platform that shows links shows the tracked link of the post: the final text contains it.
  pub compose_text-includes :
      (body : Text) (c : ℕ) (cs : Text) (p : PlatformProfile)
      → p.supports_links ≡ true
      → includes (compose_text trim text_length body (some (c ∷ cs)) (some p)) (c ∷ cs) ≡ true
  compose_text-includes body c cs p h =
      let whole = composed body c cs p in
      elim (Bool-cases (not p.supports_links || includes (trim body) (c ∷ cs))) [
        | inl plain ↦
            let there : includes (trim body) (c ∷ cs) ≡ true = ground arith in
            rw (whole, plain) there
        | inr linked ↦
            rw (whole, linked)
              (includes-append (trim body) (10 ∷ 10 ∷ c ∷ cs) (c ∷ cs)
                (includes-append (10 ∷ 10 ∷ []) (c ∷ cs) (c ∷ cs) (includes_self (c ∷ cs))))
      ]

  -- A variant has no issue exactly if the platform has a profile that admits its kind, the number
  -- and the types of its media and the length of its text, and there is something to publish.
  pub validate_variant_iff :
      (p : PlatformProfile) (text : Text) (kind : ContentKind) (media : List Text)
      → (validate_variant trim text_length (some p) text kind media ≡ [])
        ↔ IsPublishable trim text_length p text kind media
  unfolding validate_variant
  validate_variant_iff p text kind media =
      let none' = rejected-none p media in
      let blank = is_empty_iff (trim text) in
      let bare = is_empty-media_iff media in (ground arith, ground arith)
