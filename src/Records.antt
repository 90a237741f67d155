-- ===== src/Records.antt =====
-- `NodeRecord` and `EdgeRecord` of drey/src/store.rs, with interned types.
use drey.Prelude.{ℕ, Option, List}
use drey.Types.{Properties}

pub record NodeRecord : Type 0 where
  pub node_type : ℕ
  pub properties : Properties
  pub embedding : Option (List ℕ)

pub record EdgeRecord : Type 0 where
  pub source : ℕ
  pub target : ℕ
  pub edge_type : ℕ
  pub weight : ℕ
  pub properties : Properties
