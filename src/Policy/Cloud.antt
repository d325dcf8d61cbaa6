-- ===== src/Policy/Cloud.antt =====
-- tessera/policy/cloud_loader.py: what the policies of the cloud's cache are, and how they are merged
-- with the local ones. A row is what the cache's table holds, with its body as the parser gives it.
pub mod Overrides
pub mod Rows
pub mod Enforced
use cloudmorph_tessera.Prelude.{String, List, [], ◌∷◌, string_eq}
use cloudmorph_tessera.Dict
use cloudmorph_tessera.Dict.{Dict}
use cloudmorph_tessera.Policy.Schema.{Policy}
use cloudmorph_tessera.Policy.Loader.{sorted_policies}
use cloudmorph_tessera.Policy.Loader.Files.{policies_of}

module _ {F : Type 0} where
  -- `by_id[p.id] = p` for each policy
  unfoldable pub by_id : Dict String (Policy F) → List (Policy F) → Dict String (Policy F)
  unfolding Dict.put
  by_id d [] = d
  by_id d (p ∷ policies) = by_id (Dict.put p.id p d) policies

  -- `_merge`
  unfoldable pub merge : List (Policy F) → List (Policy F) → List (Policy F)
  unfolding by_id policies_of sorted_policies
  merge local cloud = sorted_policies (policies_of (by_id (by_id [] local) cloud))
