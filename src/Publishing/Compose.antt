-- ===== src/Publishing/Compose.antt =====
-- lib/publishing/compose.ts: the text of a post, and what keeps a variant from being published.
-- `trim` and the count of graphemes of `Intl.Segmenter` are parameters; an issue is a constructor
-- in place of its message.
pub mod Laws
use zernflow.Base.{
  ℕ, ◌≤◌, Bool, true, false, not, ◌&&◌, ◌||◌, Option, none, some, List, [], ◌∷◌, ◌++◌,
  if◌then◌else◌, ltb, leb, ◌==◌, any, all, length, filter,
}
use zernflow.Base.Json.{Text, starts_with, codes}
use zernflow.Publishing.Modes.{ContentKind, same_kind}

pub data MediaKind : Type 0 where
  image video : MediaKind

pub record PlatformProfile : Type 0 where
  pub max_text_length : ℕ
  pub requires_media : Bool
  pub media_kinds : List MediaKind
  pub max_media : ℕ
  pub supports_links : Bool
  pub content_kinds : List ContentKind

pub data Issue : Type 0 where
  no_profile nothing_to_publish too_long unsupported_kind media_required too_many_media : Issue
  wrong_media : Issue

abbrev pub includes : Text → Text → Bool
includes [] part = starts_with [] part
includes (c ∷ cs) part = starts_with (c ∷ cs) part || includes cs part

abbrev pub media_prefix : MediaKind → Text
media_prefix image = codes "image/"
media_prefix video = codes "video/"

-- The media that are of no kind of the profile.
abbrev pub is_accepted : PlatformProfile → Text → Bool
is_accepted profile content_type =
    any (λ k. starts_with content_type (media_prefix k)) profile.media_kinds

abbrev when : Bool → Issue → List Issue → List Issue
when b issue rest = if b then issue ∷ rest else rest

abbrev pub is_empty {ℓ} : {A : Type ℓ} → List A → Bool
is_empty [] = true
is_empty (_ ∷ _) = false

module _ (trim : Text → Text) (text_length : Text → ℕ) where
  unfoldable pub links_to : Text → Option Text → Option PlatformProfile → Option Text
  links_to text none profile = none
  links_to text (some []) profile = none
  links_to text (some (c ∷ cs)) none = none
  links_to text (some (c ∷ cs)) (some p) =
      if not p.supports_links || includes text (c ∷ cs) then none else some (c ∷ cs)

  unfoldable pub compose_text : Text → Option Text → Option PlatformProfile → Text
  unfolding links_to
  compose_text body tracked_link profile = elim (links_to (trim body) tracked_link profile) [
    | none ↦ trim body
    | some link ↦ trim body ++ (10 ∷ 10 ∷ link)
  ]

  unfoldable pub validate_variant :
      Option PlatformProfile → Text → ContentKind → List Text → List Issue
  validate_variant none text kind media = no_profile ∷ []
  validate_variant (some p) text kind media =
      when (is_empty (trim text) && is_empty media) nothing_to_publish (
        when (ltb p.max_text_length (text_length text)) too_long (
          when (not (any (same_kind kind) p.content_kinds)) unsupported_kind (
            when (p.requires_media && is_empty media) media_required (
              when (ltb p.max_media (length media)) too_many_media (
                when (not (is_empty (filter (λ m. not (is_accepted p m)) media))) wrong_media
                  [])))))
