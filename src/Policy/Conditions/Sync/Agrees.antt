-- ===== src/Policy/Conditions/Sync/Agrees.antt =====
-- A size that a lookup has found before the evaluation is the one that the evaluation uses.
use cloudmorph_tessera.Prelude.{
  ◌≡◌, refl, ap, ◌∙◌, String, Bool, false, ◌||◌, Option, none, some, Option-cases, Bool-cases, inl,
  inr, ℤ, arith, ◌==◌, string_eq, if◌then◌else◌,
}
use cloudmorph_tessera.Dict
use cloudmorph_tessera.Dict.{Dict, get-put_self}
use cloudmorph_tessera.Python.Float.{Float}
use cloudmorph_tessera.Python.Result.{Result, ok}
use cloudmorph_tessera.Python.Value.{Fields}
use cloudmorph_tessera.Policy.Eval.{Host, World, Eval}
use cloudmorph_tessera.Policy.Conditions.Volume.{
  cached_or, shared_sizes, s3_head_cache_key, estimate_s3_object_size,
}
use cloudmorph_tessera.Policy.Conditions.Sync.{fetch_or_cached, s3_head_size_sync}

fetched_is_cached :
    (key key' : String) (lru lru' : Dict String ℤ) (fetched : Option ℤ) (size : ℤ)
    → fetch_or_cached key lru fetched ≡ ((key', some size), lru')
    → (key ≡ key') × (Dict.get key lru' ≡ some size)
unfolding fetch_or_cached
fetched_is_cached key key' lru lru' fetched size h = elim (Option-cases (Dict.get key lru)) [
  | inr (cached, found) ↦ (ground arith, ground arith)
  | inl missing ↦ elim (Option-cases fetched) [
    | inl failed ↦ absurd (ground arith)
    | inr (n, fresh) ↦ (ground arith, ground (arith, get-put_self key n lru))
  ]
]

module _ {F : Type 0} where
  -- The evaluation takes the size from the shared cache where its own cache does not have one.
  cached_or_shared :
      (key : String) (static size : ℤ) (estimate : Option (ℤ × Bool)) (w : World F)
      → Dict.get key (shared_sizes w) ≡ none
      → Dict.get key w.lru ≡ some size
      → (cached_or key static estimate w).0 ≡ ok size
  unfolding cached_or
  cached_or_shared key static size estimate w own shared = rw own (rw shared refl)

  skip_empty :
      (b : Bool) (m n : Eval F ℤ) (w : World F) (r : Result ℤ)
      → b ≡ false
      → (n w).0 ≡ r
      → ((if b then m else n) w).0 ≡ r
  skip_empty b m n w r h p = rw h p

module _ {F : Type 0} ⦃fl : Float F⦄ (host : Host F) where
  -- Where `s3_head_size_sync` has found a size, the estimator of the evaluation returns it, in every
  -- world with the cache that the lookup has left and with no size of its own under that key.
  pub estimate_s3-sync :
      (args : Fields F) (lru lru' : Dict String ℤ) (key : String) (size : ℤ) (w : World F)
      → s3_head_size_sync host args lru ≡ ((key, some size), lru')
      → w.lru ≡ lru'
      → Dict.get key (shared_sizes w) ≡ none
      → (estimate_s3_object_size host args w).0 ≡ ok size
  unfolding s3_head_size_sync estimate_s3_object_size
  estimate_s3-sync args lru lru' key size w h l own =
      elim (Bool-cases
        ((s3_head_cache_key host args).0 == "" || (s3_head_cache_key host args).1 == "")) [
          | inl empty ↦ absurd (ground arith)
          | inr full ↦
              let (same, cached) = fetched_is_cached _ key lru lru' _ size (rw full at h) in
              skip_empty _ _ _ w (ok size) full (
                cached_or_shared _ _ size _ w (ap (λ k. Dict.get k (shared_sizes w)) same ∙ own)
                  (ap (Dict.get _) l ∙ cached))
        ]
