-- ===== src/Publishing/Modes.antt =====
-- lib/publishing/capabilities.ts and the registry of providers of lib/publishing/contract.ts: which
-- providers there are, and which mode publishes a variant.
pub mod Laws
use zernflow.Base.{
  ℕ, Bool, true, false, not, ◌&&◌, ◌||◌, String, Option, none, some, List, [], ◌∷◌, ◌++◌,
  if◌then◌else◌, find, any, is_some,
}
use zernflow.Base.Json.{Text, text_eq, codes}
use zernflow.Base.Result.{Result, ok, err}

pub data ContentKind : Type 0 where
  post thread reel story carousel short_video article : ContentKind

abbrev pub same_kind : ContentKind → ContentKind → Bool
same_kind post post = true
same_kind thread thread = true
same_kind reel reel = true
same_kind story story = true
same_kind carousel carousel = true
same_kind short_video short_video = true
same_kind article article = true
same_kind _ _ = false

pub record ProviderCapability : Type 0 where
  pub available : Bool
  pub reason : Text

-- What the registry asks of a provider.
pub record PublishingProvider : Type 0 where
  pub id : Text
  pub platforms : List Text
  pub capability : Text → ContentKind → ProviderCapability

abbrev pub has_id : Text → PublishingProvider → Bool
has_id id p = text_eq p.id id

-- The provider with the id is replaced, or the provider is added at the end.
unfoldable pub register_publishing_provider :
    PublishingProvider → List PublishingProvider → List PublishingProvider
register_publishing_provider p [] = p ∷ []
register_publishing_provider p (q ∷ qs) =
    let rest = register_publishing_provider p qs in if has_id p.id q then p ∷ qs else q ∷ rest

-- The first provider with the id is removed.
unfoldable pub unregister_publishing_provider :
    Text → List PublishingProvider → List PublishingProvider
unregister_publishing_provider id [] = []
unregister_publishing_provider id (q ∷ qs) =
    let rest = unregister_publishing_provider id qs in if has_id id q then qs else q ∷ rest

abbrev pub can_publish : Text → ContentKind → PublishingProvider → Bool
can_publish platform kind p = (p.capability platform kind).available

unfoldable pub api_provider_for :
    Text → ContentKind → List PublishingProvider → Option PublishingProvider
api_provider_for platform kind ps = find (can_publish platform kind) ps

pub record ApiRoute : Type 0 where
  pub available : Bool
  pub reason : Text
  pub provider_id : Option Text

abbrev claimed_reason : Text → ContentKind → Option PublishingProvider → Text
claimed_reason platform kind none =
    codes "No API publishing provider is connected for this platform."
claimed_reason platform kind (some p) = (p.capability platform kind).reason

unfoldable pub api_route_reason : Text → ContentKind → List PublishingProvider → ApiRoute
unfolding api_provider_for
api_route_reason platform kind ps = elim (api_provider_for platform kind ps) [
  | some p ↦ record {
    available = true;
    reason = (p.capability platform kind).reason;
    provider_id = some p.id;
  }
  | none ↦ record {
    available = false;
    reason = claimed_reason platform kind (find (λ p. any (text_eq platform) p.platforms) ps);
    provider_id = none;
  }
]

pub data PublishMode : Type 0 where
  api browser manual : PublishMode

abbrev pub same_mode : PublishMode → PublishMode → Bool
same_mode api api = true
same_mode browser browser = true
same_mode manual manual = true
same_mode _ _ = false

pub record ModeAvailability : Type 0 where
  pub mode : PublishMode
  pub available : Bool
  pub reason : Text

-- `capabilityOf(adapter, "publish_post").level` of a browser adapter of a platform.
pub data VerificationLevel : Type 0 where
  verified experimental unsupported : VerificationLevel

abbrev pub is_verified : Option VerificationLevel → Bool
is_verified (some verified) = true
is_verified _ = false

-- What is registered: the API providers, the publishers of the browser and the verification of its
-- adapters.
pub record Registry : Type 0 where
  pub providers : List PublishingProvider
  pub browser_publishers : Text → Option (List ContentKind)
  pub browser_level : Text → Option VerificationLevel

abbrev pub kinds_of : Option (List ContentKind) → List ContentKind
kinds_of none = []
kinds_of (some ks) = ks

unfoldable pub browser_available : Registry → Text → ContentKind → Bool
browser_available registry platform kind =
    is_verified (registry.browser_level platform)
    && any (same_kind kind) (kinds_of (registry.browser_publishers platform))

unfoldable pub available_modes : Registry → Text → ContentKind → List ModeAvailability
unfolding api_route_reason browser_available
available_modes registry platform kind =
    let route = api_route_reason platform kind registry.providers in
    let by_browser = browser_available registry platform kind in
    record { mode = api; available = route.available; reason = route.reason }
    ∷ record {
      mode = browser;
      available = by_browser;
      reason =
          if by_browser
          then codes "Published by the managed browser executor"
          else codes "No tested browser publishing adapter for this platform and content kind.";
    }
    ∷ record {
      mode = manual;
      available = true;
      reason =
          codes
            "You publish on the platform and confirm the post link here; ZernFlow reminds you when it is due.";
    }
    ∷ []

abbrev pub preferred_mode : PublishMode → Option ModeAvailability → Result Text PublishMode
preferred_mode mode none = err (codes "Unknown mode")
preferred_mode mode (some m) = if m.available then ok mode else err m.reason

-- The first available mode; there is always one, so the last case does not occur.
abbrev first_mode : Option ModeAvailability → Result Text PublishMode
first_mode none = err []
first_mode (some m) = ok m.mode

unfoldable pub resolve_mode :
    Registry → Text → ContentKind → Option PublishMode → Result Text PublishMode
unfolding available_modes
resolve_mode registry platform kind (some preferred) =
    preferred_mode preferred
      (find (λ m. same_mode m.mode preferred) (available_modes registry platform kind))
resolve_mode registry platform kind none =
    first_mode (find (λ m. m.available) (available_modes registry platform kind))
