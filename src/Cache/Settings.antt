-- ===== src/Cache/Settings.antt =====
-- The options of HTTPCache in src/cache.ts and their defaults. The default key function, which signs
-- credentials, is an argument.
use kinetex.Base.{ℕ, ◌*◌, Bool, true, List, [], ◌∷◌, Option, none, some, Text, codes}
use kinetex.Numbers.{Number, num}
use kinetex.Cache.Freshness.{Request}
use kinetex.Cache.State.{Config, Cache}
use kinetex.Cache.Requests.{create}

pub record CacheConfig : Type 0 where
  pub max_entries : Option ℕ
  pub max_size_bytes : Option ℕ
  pub max_body_size_bytes : Option ℕ
  pub default_ttl : Option Number
  pub max_absolute_age : Option Number
  pub honor_cache_control : Option Bool
  pub cache_methods : Option (List Text)
  pub cache_statuses : Option (List ℕ)
  pub cache_key : Option (Request → Text)
  pub namespace : Option Text

-- `??`
abbrev or_default {ℓ} : {A : Type ℓ} → Option A → A → A
or_default none d = d
or_default (some a) d = a

unfoldable pub resolve : (Request → Text) → CacheConfig → Config
resolve default_cache_key config = record {
  max_entries = or_default config.max_entries 500;
  max_size_bytes = or_default config.max_size_bytes (50 * 1024 * 1024);
  max_body_size_bytes = or_default config.max_body_size_bytes (5 * 1024 * 1024);
  default_ttl = or_default config.default_ttl (num 60000);
  max_absolute_age = or_default config.max_absolute_age (num (7 * 24 * 60 * 60 * 1000));
  honor_cache_control = or_default config.honor_cache_control true;
  cache_methods = or_default config.cache_methods (codes "GET" ∷ codes "HEAD" ∷ []);
  cache_statuses =
      or_default config.cache_statuses
        (200 ∷ 203 ∷ 204 ∷ 206 ∷ 300 ∷ 301 ∷ 404 ∷ 405 ∷ 410 ∷ 414 ∷ 501 ∷ []);
  cache_key = or_default config.cache_key default_cache_key;
  namespace = or_default config.namespace [];
}

unfoldable pub create_cache : (Request → Text) → CacheConfig → Cache
unfolding resolve create
create_cache default_cache_key config = create (resolve default_cache_key config)
