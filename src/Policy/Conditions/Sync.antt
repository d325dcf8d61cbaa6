-- ===== src/Policy/Conditions/Sync.antt =====
-- tessera/policy/conditions.py: the lookups that run before the evaluation, `s3_head_size_sync` and
-- `rds_explain_size_sync`. The lock makes each access to the shared cache one step.
pub mod Agrees
use Prim.Native.String.{◌++◌ as str_append}
use cloudmorph_tessera.Prelude.{
  String, ◌||◌, Option, none, some, ℤ, pos, ltb, ◌==◌, string_eq, if◌then◌else◌,
}
use cloudmorph_tessera.Dict
use cloudmorph_tessera.Dict.{Dict}
use cloudmorph_tessera.Python.Float.{Float}
use cloudmorph_tessera.Python.Result.{Result, ok, ◌>>=◌}
use cloudmorph_tessera.Python.Value.{Fields}
use cloudmorph_tessera.Policy.Eval.{Host}
use cloudmorph_tessera.Policy.Conditions.Volume.{
  s3_head_cache_key, rds_explain_cache_key, text_arg, total_bytes,
}

-- the cached size, or the fetched one, which is then cached
unfoldable pub fetch_or_cached :
    String → Dict String ℤ → Option ℤ → (String × Option ℤ) × Dict String ℤ
fetch_or_cached key lru fetched = elim (Dict.get key lru) [
  | some size ↦ ((key, some size), lru)
  | none ↦ elim fetched [
    | none ↦ ((key, none), lru)
    | some size ↦ ((key, some size), Dict.put key size lru)
  ]
]

module _ {F : Type 0} ⦃fl : Float F⦄ (host : Host F) where
  unfoldable pub s3_fetch : String → String → Option ℤ
  s3_fetch bucket key = elim host.s3_head [
    | none ↦ none
    | some head_object ↦ head_object bucket key
  ]

  unfoldable pub s3_head_size_sync : Fields F → Dict String ℤ → (String × Option ℤ) × Dict String ℤ
  s3_head_size_sync args lru =
      let (bucket, key) = s3_head_cache_key host args in
      if bucket == "" || key == ""
      then (("", none), lru)
      else fetch_or_cached (str_append "s3_head:" (str_append bucket (str_append "/" key))) lru
          (s3_fetch bucket key)

  -- a statement whose fields have no characters has no size
  unfoldable pub rds_fetch : String → String → Fields F → Option ℤ
  rds_fetch cluster_arn secret_arn args = elim host.rds_execute [
    | none ↦ none
    | some execute ↦
        elim (execute cluster_arn secret_arn (text_arg host "database" "Database" args)
          (str_append "EXPLAIN " (text_arg host "Statement" "statement" args))) [
            | none ↦ none
            | some rows ↦
                if ltb 0 (total_bytes host rows) then some (pos (total_bytes host rows)) else none
          ]
  ]

  -- the lookup under the parts of a cache key
  unfoldable pub rds_size_sync_of :
      Fields F → Dict String ℤ → String × String × String → (String × Option ℤ) × Dict String ℤ
  rds_size_sync_of args lru (cluster_arn, secret_arn, hash) =
      if cluster_arn == "" || secret_arn == "" || hash == ""
      then (("", none), lru)
      else fetch_or_cached
          (str_append "rds_explain:" (str_append cluster_arn (str_append ":" hash))) lru
          (rds_fetch cluster_arn secret_arn args)

  unfoldable pub rds_explain_size_sync :
      Fields F → Dict String ℤ → Result ((String × Option ℤ) × Dict String ℤ)
  rds_explain_size_sync args lru =
      rds_explain_cache_key host args >>= λ key. ok (rds_size_sync_of args lru key)
