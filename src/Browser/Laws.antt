-- ===== src/Browser/Laws.antt =====
-- When the managed browser executes an operation.
use zernflow.Base.{◌≡◌, refl, sym, ◌↔◌, Bool, true, false, Option, none, some, List, arith}
use mathlib.Core.Path.{subst}
use zernflow.Base.Json.{Text}
use zernflow.Browser.{
  BrowserAdapter, BrowserCapability, capability_of, browser_adapter, browser, is_usable_level,
  resolve_browser, resolve_adapter, resolve_executor,
}

browser_iff :
    (allow : Bool) (cap : BrowserCapability)
    → ((resolve_browser allow cap).executor ≡ some browser)
      ↔ (is_usable_level allow cap.level ≡ true)
unfolding resolve_browser
browser_iff allow cap = ground arith

adapter_iff :
    (allow : Bool) (operation : Text) (adapter : Option BrowserAdapter)
    → ((resolve_adapter allow operation adapter).executor ≡ some browser) ↔ (
        (a : BrowserAdapter) × (adapter ≡ some a)
        × (is_usable_level allow (capability_of a operation).level ≡ true))
unfolding resolve_adapter
adapter_iff allow operation none =
    ((λ e. absurd (ground arith)), (λ h. absurd (let none' = h.1 in ground arith)))
adapter_iff allow operation (some adapter) =
    let one = browser_iff allow (capability_of adapter operation) in
    (
      (λ e. (adapter, refl, one.0 e)),
      (λ (a, same, usable).
          let adapter_is : adapter ≡ a = ground arith in
          one.1 (
            subst (λ x. is_usable_level allow (capability_of x operation).level ≡ true)
              (sym adapter_is) usable)),
    )

-- The browser executes an operation exactly if there is neither an API nor the gateway for it, and
-- the platform has an adapter whose capability for it is verified, or experimental and enabled.
pub resolve_executor-browser_iff :
    (adapters : List BrowserAdapter) (platform operation : Text) (has_api has_gateway allow : Bool)
    → ((resolve_executor adapters platform operation has_api has_gateway allow).executor
        ≡ some browser)
      ↔ ((has_api ≡ false)
          × (has_gateway ≡ false)
          × ((a : BrowserAdapter) × (browser_adapter adapters platform ≡ some a)
              × (is_usable_level allow (capability_of a operation).level ≡ true)))
unfolding resolve_executor
resolve_executor-browser_iff adapters platform operation true has_gateway allow =
    ((λ e. absurd (ground arith)), (λ h. absurd (ground arith)))
resolve_executor-browser_iff adapters platform operation false true allow =
    ((λ e. absurd (ground arith)), (λ h. absurd (ground arith)))
resolve_executor-browser_iff adapters platform operation false false allow =
    let one = adapter_iff allow operation (browser_adapter adapters platform) in
    ((λ e. (refl, refl, one.0 e)), (λ h. one.1 h.2))
