-- ===== src/Cache/Config.antt =====
-- middleware/cache/config.go: the settings of the cache middleware.
use httpio.Base.{ℕ, ◌*◌, ◌^◌, ℤ, pos, Bool, true, List, [], ◌∷◌, Bytes}
use httpio.Base.{eq, if◌then◌else◌}

-- `type KeyStrategyType int`; a number that no constant names stands for the default.
pub data KeyStrategyType : Type 0 where
  key_by_url_and_method : KeyStrategyType
  key_by_url_only : KeyStrategyType
  key_by_full_request : KeyStrategyType
  unnamed : ℤ → KeyStrategyType

-- The two maps are association lists.
pub record Config : Type 0 where
  pub enabled : Bool
  pub default_ttl : ℤ
  pub respect_cache_control : Bool
  pub include_patterns : List Bytes
  pub exclude_patterns : List Bytes
  pub exclude_hosts : List Bytes
  pub cleanup_interval : ℤ
  pub key_strategy : KeyStrategyType
  pub domain_ttl_rules : List (Bytes × ℤ)
  pub path_ttl_rules : List (Bytes × ℤ)

-- `n * time.Minute`
abbrev minutes : ℕ → ℤ
minutes n = pos (n * (60 * 10 ^ 9))

unfoldable pub default_config : Config
default_config = record {
  enabled = true;
  default_ttl = minutes 10;
  respect_cache_control = true;
  include_patterns = [];
  exclude_patterns = [];
  exclude_hosts = [];
  cleanup_interval = minutes 30;
  key_strategy = key_by_url_and_method;
  domain_ttl_rules = [];
  path_ttl_rules = [];
}

-- `rules[name] = ttl`
unfoldable pub put_rule : Bytes → ℤ → List (Bytes × ℤ) → List (Bytes × ℤ)
put_rule name ttl [] = (name, ttl) ∷ []
put_rule name ttl ((other, d) ∷ rules) =
    if eq other name then (other, ttl) ∷ rules else (other, d) ∷ put_rule name ttl rules

unfoldable pub with_enabled : Bool → Config → Config
with_enabled enabled c = record c { enabled = enabled }

unfoldable pub with_default_ttl : ℤ → Config → Config
with_default_ttl ttl c = record c { default_ttl = ttl }

unfoldable pub with_respect_cache_control : Bool → Config → Config
with_respect_cache_control respect c = record c { respect_cache_control = respect }

unfoldable pub with_include_patterns : List Bytes → Config → Config
with_include_patterns patterns c = record c { include_patterns = patterns }

unfoldable pub with_exclude_patterns : List Bytes → Config → Config
with_exclude_patterns patterns c = record c { exclude_patterns = patterns }

unfoldable pub with_exclude_hosts : List Bytes → Config → Config
with_exclude_hosts hosts c = record c { exclude_hosts = hosts }

unfoldable pub with_key_strategy : KeyStrategyType → Config → Config
with_key_strategy strategy c = record c { key_strategy = strategy }

unfoldable pub with_domain_ttl : Bytes → ℤ → Config → Config
with_domain_ttl domain ttl c = record c {
  domain_ttl_rules = put_rule domain ttl c.domain_ttl_rules;
}

unfoldable pub with_path_ttl : Bytes → ℤ → Config → Config
with_path_ttl path_pattern ttl c = record c {
  path_ttl_rules = put_rule path_pattern ttl c.path_ttl_rules;
}

unfoldable pub with_cleanup_interval : ℤ → Config → Config
with_cleanup_interval interval c = record c { cleanup_interval = interval }
