-- ===== src/Config.antt =====
-- drey/src/config.rs: `GraphConfig`.
use drey.Prelude.{ℕ, Bool, false, ◌&&◌, ◌||◌, Option, none, List, [], ◌∷◌}
use drey.Ord.{Text, text_ord, ◌=?◌}

pub record GraphConfig : Type 0 where
  pub indexed_properties : List (Text × Text)
  pub max_candidates : ℕ
  pub default_max_hops : ℕ
  pub read_only : Bool
  pub max_embedding_dim : Option ℕ
  pub file_lock : Bool

-- `GraphConfig::default()`.
abbrev pub default : GraphConfig
default = record {
  indexed_properties = [];
  max_candidates = 100_000;
  default_max_hops = 5;
  read_only = false;
  max_embedding_dim = none;
  file_lock = false;
}

any_indexed : Text → Text → List (Text × Text) → Bool
any_indexed t k [] = false
any_indexed t k ((t', k') ∷ ps) = t' =? t && k' =? k || any_indexed t k ps

-- `GraphConfig::is_indexed`.
unfoldable pub is_indexed : GraphConfig → Text → Text → Bool
unfolding any_indexed
is_indexed config t k = any_indexed t k config.indexed_properties
