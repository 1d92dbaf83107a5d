-- ===== src/Web/Issues.antt =====
-- The cache of open onboarding issues of cmd/web-bff/main.go: fetchAndFilterOnboardingIssues,
-- getOnboardingIssues, handleOnboardingIssues and invalidateOnboardingCache. The server has a cache,
-- a store and a fetcher, as `main` sets them up; what GitHub answers and the clock are arguments.
pub mod Cache
use maintainer_d.Base.{
  ℕ, zero, suc, ◌+◌, Text, text, ◌==◌, to_lower, ltb, Bool, true, false, ◌&&◌, not, Option, none,
  some, List, [], ◌∷◌, if◌then◌else◌,
}
use maintainer_d.Auth.Stores.{Session}
use maintainer_d.Store.{Answer, found, failed, Gorm}
use maintainer_d.Web.{
  Method, get, post, patch, put, options, other_method, Reply, refused, ok, server_error,
  bad_gateway, method_not_allowed, for_staff,
}

-- onboardingIssueSummary
pub record Issue : Type 0 where
  pub number : ℕ
  pub title : Text
  pub url : Text
  pub project_name : Text

pub record IssueCache : Type 0 where
  pub expires : ℕ
  pub raw : List Issue
  pub issues : List Issue

-- The zero time is 0.
unfoldable pub invalidate_onboarding_cache : IssueCache → IssueCache
invalidate_onboarding_cache cache = record { expires = 0; raw = []; issues = [] }

-- onboardingIssueCacheTTL, in seconds
abbrev pub cache_ttl : ℕ
cache_ttl = 900

abbrev is_empty : List Issue → Bool
is_empty [] = true
is_empty (i ∷ is) = false

-- `now.Before(expires)`, and there is something in the cache
unfoldable pub is_fresh : ℕ → IssueCache → Bool
is_fresh now cache = ltb now cache.expires && not (is_empty cache.issues)

unfoldable pub keep_new : Issue → Answer ℕ → Option (List Issue) → Option (List Issue)
keep_new i (failed e) rest = none
keep_new i (found n) none = none
keep_new i (found zero) (some is) = some (i ∷ is)
keep_new i (found (suc n)) (some is) = some is

module _ {W : Type 0} (db : Gorm W) where
  -- The issues that no project has; an error of a query is an error of the whole.
  unfoldable pub filter_issues : List Issue → W → Option (List Issue)
  unfolding keep_new to_lower
  filter_issues [] w = some []
  filter_issues (i ∷ is) w =
      keep_new i (db.count_projects_like (to_lower i.url) (to_lower i.project_name) w)
        (filter_issues is w)

  unfoldable pub store_issues :
      ℕ → List Issue → Option (List Issue) → IssueCache → Option (List Issue) × IssueCache
  store_issues now raw none cache = (none, cache)
  store_issues now raw (some filtered) cache =
      (some filtered, record { expires = now + cache_ttl; raw = raw; issues = filtered })

  unfoldable pub refill :
      ℕ → Option (List Issue) → W → IssueCache → Option (List Issue) × IssueCache
  unfolding store_issues filter_issues
  refill now none w cache = (none, cache)
  refill now (some raw) w cache = store_issues now raw (filter_issues raw w) cache

  unfoldable pub get_onboarding_issues :
      ℕ → Option (List Issue) → W → IssueCache → Option (List Issue) × IssueCache
  unfolding is_fresh refill
  get_onboarding_issues now fetched w cache =
      if is_fresh now cache then (some cache.issues, cache) else refill now fetched w cache

  unfoldable pub issues_reply : Option (List Issue) × IssueCache → Reply (List Issue) × IssueCache
  issues_reply (none, cache) =
      (refused bad_gateway (text "failed to fetch onboarding issues"), cache)
  issues_reply (some is, cache) = (ok is, cache)

  -- With a token or in test mode.
  unfoldable pub handle_onboarding_issues :
      Bool
      → Method
      → Option Session
      → ℕ
      → Option (List Issue)
      → W
      → IssueCache
      → Reply (List Issue) × IssueCache
  unfolding for_staff issues_reply get_onboarding_issues
  handle_onboarding_issues configured get session now fetched w cache =
      for_staff session
        (λ owner cache.
          if not configured
          then (refused server_error (text "github api token not configured"), cache)
          else issues_reply (get_onboarding_issues now fetched w cache))
        cache
  handle_onboarding_issues configured _ session now fetched w cache =
      (refused method_not_allowed (text "method not allowed"), cache)
