-- ===== src/Publishing/Modes/Laws.antt =====
-- Which mode is resolved, and what the registry of the providers keeps.
use zernflow.Base.{
  ◌≡◌, refl, ◌↔◌, inl, inr, Bool, true, none, some, List, [], ◌∷◌, arith, find, any, if◌then◌else◌,
  Option-cases, is_some,
}
use zernflow.Base.Json.{Text}
use zernflow.Base.Result.{ok}
use zernflow.Publishing.Modes.{
  ContentKind, PublishingProvider, can_publish, api_provider_for, api_route_reason, PublishMode,
  api, browser, manual, Registry, browser_available, available_modes, resolve_mode,
}

-- Whether a mode can publish, by the providers and the browser's adapters.
abbrev pub is_usable : Registry → Text → ContentKind → PublishMode → Bool
is_usable registry platform kind api = any (can_publish platform kind) registry.providers
is_usable registry platform kind browser = browser_available registry platform kind
is_usable registry platform kind manual = true

find-any :
    (p : PublishingProvider → Bool) (ps : List PublishingProvider) → is_some (find p ps) ≡ any p ps
find-any p [] = refl
find-any p (q ∷ qs) = let rest = find-any p qs in ground arith

route-available :
    (platform : Text) (kind : ContentKind) (ps : List PublishingProvider)
    → (api_route_reason platform kind ps).available ≡ any (can_publish platform kind) ps
unfolding api_route_reason api_provider_for
route-available platform kind ps =
    let same = find-any (can_publish platform kind) ps in
    elim (Option-cases (find (can_publish platform kind) ps)) [
      | inl none' ↦ rw (none', api_route_reason) (ground arith)
      | inr (p, some') ↦ rw (some', api_route_reason) (ground arith)
    ]

abbrev pub first_usable : Bool → Bool → PublishMode
first_usable by_api by_browser = if by_api then api else if by_browser then browser else manual

-- Without a preference the mode is the API if a provider can publish, else the browser if its adapter
-- is verified and publishes the kind, else manual.
pub resolve_mode-first :
    (registry : Registry) (platform : Text) (kind : ContentKind)
    → resolve_mode registry platform kind none
      ≡ ok (
          first_usable
            (is_usable registry platform kind api)
            (is_usable registry platform kind browser))
unfolding resolve_mode available_modes
resolve_mode-first registry platform kind =
    let same = route-available platform kind registry.providers in ground arith

-- A preferred mode is resolved exactly if it can publish, and never replaced by another.
pub resolve_mode-preferred :
    (registry : Registry) (platform : Text) (kind : ContentKind) (preferred mode : PublishMode)
    → (resolve_mode registry platform kind (some preferred) ≡ ok mode)
      ↔ ((mode ≡ preferred) × (is_usable registry platform kind preferred ≡ true))
unfolding resolve_mode available_modes
resolve_mode-preferred registry platform kind preferred mode =
    let same = route-available platform kind registry.providers in ground arith
