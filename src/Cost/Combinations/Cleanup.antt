-- ===== src/Cost/Combinations/Cleanup.antt =====
-- What the sweep over stale chains leaves.
use cloudmorph_tessera.Prelude.{Bool, string_eq}
use cloudmorph_tessera.Dict
use cloudmorph_tessera.Dict.{Dict}
use cloudmorph_tessera.Python.Float.{Float}
use cloudmorph_tessera.Cost.Combinations.{ActiveChain, ChainKey, key_eq, Tracker}
use cloudmorph_tessera.Cost.Combinations.Queries.{is_stale}

module _ {F : Type 0} ⦃fl : Float F⦄ where
  -- no definition of the chain's combination, or past its window
  abbrev pub is_stale_entry : Tracker F → F → ChainKey × ActiveChain F → Bool
  is_stale_entry t now entry = is_stale (Dict.get (entry.1).combination_id t.defs_by_id) entry.1 now
