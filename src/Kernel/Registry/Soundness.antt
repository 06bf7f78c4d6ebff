-- ===== src/Kernel/Registry/Soundness.antt =====
-- The cache of the registry is invisible.
use apex_vnext.Common.{ℕ, String, ◌≡◌, Bool, List, some, ok}
use apex_vnext.Common.Assoc.{get}
use apex_vnext.Kernel.Canonical.{Text, text_Eq, Json}
use apex_vnext.Kernel.Registry.{
  ValidationIssue, RegisteredValidator, ValidatorHandler, ValidatorKind, pure, Registry,
  empty_registry, register_handler, clear_cache, validate, cache_key, is_valid,
}

module _ (sha256_text : Text → String) where
  -- The registries that the calls lead to.
  pub data Reach : Registry → Type 0 where
    at_start : Reach empty_registry
    registered :
        {r r' : Registry} (name : Text) (handler : ValidatorHandler) (kind : ValidatorKind)
        → Reach r
        → register_handler name handler kind r ≡ ok r'
        → Reach r'
    validated :
        {r : Registry} (name : Text) (value : Json) (moment : ℕ)
        → Reach r
        → Reach (validate sha256_text name value moment r).1
    cleared : {r : Registry} → Reach r → Reach (clear_cache r)

  -- An entry of the cache is what the handler of some pure validator gave at some moment for
  -- some value with its key.
  pub record Origin (r : Registry) (key : Text) (entry : Bool × List ValidationIssue) : Type 0 where
    pub name : Text
    pub value : Json
    pub moment : ℕ
    pub validator : RegisteredValidator
    pub is_pure_kind : validator.kind ≡ pure
    pub known : get r.validators name ≡ some validator
    pub keyed : cache_key sha256_text name value ≡ key
    pub same : entry ≡ (is_valid (validator.handler moment value), validator.handler moment value)

  abbrev pub IsHonest : Registry → Type 0
  IsHonest r =
      (key : Text) (entry : Bool × List ValidationIssue)
      → get r.cache key ≡ some entry
      → Origin r key entry

  -- A pure validator answers the same at every moment, and the keys tell the pure validators and the
  -- values apart, as far as the handlers do: names hold no text that looks like the end of another
  -- key, and SHA-256 has no collision. Nothing is asked of the validators of the other kinds.
  abbrev pub Apart : Registry → Type 0
  Apart r =
      (n n' : Text) (x x' : RegisteredValidator) (v v' : Json) (t t' : ℕ)
      → get r.validators n ≡ some x
      → get r.validators n' ≡ some x'
      → x.kind ≡ pure
      → x'.kind ≡ pure
      → cache_key sha256_text n v ≡ cache_key sha256_text n' v'
      → x.handler t v ≡ x'.handler t' v'
