-- ===== src/Browser.antt =====
-- lib/browser/registry.ts and `capabilityOf` of lib/browser/contract.ts: which executor runs an
-- operation. The registered adapters are an argument; the reasons of what is skipped are constructors
-- in place of their texts, but for the note of a capability.
pub mod Laws
use zernflow.Base.{
  Bool, true, false, ◌&&◌, ◌||◌, Option, none, some, List, [], ◌∷◌, find, if◌then◌else◌,
}
use zernflow.Base.Json.{Text, text_eq, codes}
use zernflow.Publishing.Modes.{VerificationLevel, verified, experimental, unsupported}

pub record BrowserCapability : Type 0 where
  pub operation : Text
  pub level : VerificationLevel
  pub note : Text

pub record BrowserAdapter : Type 0 where
  pub platform : Text
  pub capabilities : List BrowserCapability

-- The first capability for the operation, or an unsupported one.
unfoldable pub capability_of : BrowserAdapter → Text → BrowserCapability
capability_of adapter operation =
    elim (find (λ c. text_eq c.operation operation) adapter.capabilities) [
      | some c ↦ c
      | none ↦ record {
        operation = operation;
        level = unsupported;
        note = codes "Not implemented for this platform.";
      }
    ]

unfoldable pub browser_adapter : List BrowserAdapter → Text → Option BrowserAdapter
browser_adapter adapters platform = find (λ a. text_eq a.platform platform) adapters

pub data Executor : Type 0 where
  api gateway browser : Executor

pub data SkipReason : Type 0 where
  no_api no_gateway no_adapter not_enabled : SkipReason
  noted : Text → SkipReason

-- The executor, the level of the browser's capability, and what was skipped before.
pub record Resolution : Type 0 where
  pub executor : Option Executor
  pub level : Option VerificationLevel
  pub skipped : List (Executor × SkipReason)

abbrev pub is_usable_level : Bool → VerificationLevel → Bool
is_usable_level allow verified = true
is_usable_level allow experimental = allow
is_usable_level allow unsupported = false

abbrev pub skip_reason : BrowserCapability → SkipReason
skip_reason cap = elim cap.level [ experimental ↦ not_enabled | _ ↦ noted cap.note ]

abbrev pub without_api : List (Executor × SkipReason)
without_api = (api, no_api) ∷ []

abbrev pub without_gateway : SkipReason → List (Executor × SkipReason)
without_gateway reason = (api, no_api) ∷ (gateway, no_gateway) ∷ (browser, reason) ∷ []

-- The branch of a browser adapter's capability.
unfoldable pub resolve_browser : Bool → BrowserCapability → Resolution
resolve_browser allow_experimental cap =
    if is_usable_level allow_experimental cap.level
    then record {
      executor = some browser;
      level = some cap.level;
      skipped = (api, no_api) ∷ (gateway, no_gateway) ∷ [];
    }
    else record { executor = none; level = none; skipped = without_gateway (skip_reason cap) }

unfoldable pub resolve_adapter : Bool → Text → Option BrowserAdapter → Resolution
unfolding resolve_browser
resolve_adapter allow_experimental operation none = record {
  executor = none;
  level = none;
  skipped = without_gateway no_adapter;
}
resolve_adapter allow_experimental operation (some adapter) =
    resolve_browser allow_experimental (capability_of adapter operation)

-- The official API, then the gateway, then the managed browser.
unfoldable pub resolve_executor :
    List BrowserAdapter → Text → Text → Bool → Bool → Bool → Resolution
unfolding resolve_adapter
resolve_executor adapters platform operation api_available gateway_available allow_experimental =
    if api_available
    then record { executor = some api; level = none; skipped = [] }
    else if gateway_available
    then record { executor = some gateway; level = none; skipped = without_api }
    else resolve_adapter allow_experimental operation (browser_adapter adapters platform)
