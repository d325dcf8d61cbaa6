-- ===== src/Policy/Conditions/Volume.antt =====
-- tessera/policy/conditions.py: the estimators of `data_volume` and their two caches. Entries that
-- the library's TTL cache drops are dropped between evaluations.
use Prim.Native.String.{◌++◌ as str_append}
use cloudmorph_tessera.Prelude.{
  ℕ, ◌+◌, String, Bool, true, false, ◌||◌, Option, none, some, List, [], ◌∷◌, length, ltb, ◌==◌,
  string_eq, if◌then◌else◌, ℤ, pos,
}
use cloudmorph_tessera.Dict
use cloudmorph_tessera.Dict.{Dict}
use cloudmorph_tessera.Python.Float.{Float}
use cloudmorph_tessera.Python.Result.{Result, ok, err, value_error}
use cloudmorph_tessera.Python.Value.{Fields, str, dict, get_or, truthy}
use cloudmorph_tessera.Python.Json.{codes}
use cloudmorph_tessera.Python.Text.{json_size}
use cloudmorph_tessera.Policy.Schema.{
  Operator, Estimator, s3_get_byte_estimate, rds_query_result_estimate, static_arg_size,
}
use cloudmorph_tessera.Policy.Eval.{
  Host, Context, World, Eval, pure, lift, gets, modify, ◌>>=◌, ◌>>◌,
}
use cloudmorph_tessera.Policy.Conditions.Arguments.{text_of}
use cloudmorph_tessera.Policy.Conditions.Backends.{compares_int}

module _ {F : Type 0} ⦃fl : Float F⦄ (host : Host F) where
  -- `str(args.get(a, args.get(b, "")) or "")`
  unfoldable pub text_arg : String → String → Fields F → String
  text_arg a b args =
      let v = get_or a (get_or b (str "") args) args in if truthy v then text_of host v else ""

  unfoldable pub s3_head_cache_key : Fields F → String × String
  s3_head_cache_key args = (text_arg "Bucket" "bucket" args, text_arg "Key" "key" args)

  unfoldable pub rds_explain_cache_key : Fields F → Result (String × String × String)
  rds_explain_cache_key args =
      let statement = text_arg "Statement" "statement" args in
      let cluster_arn = text_arg "resourceArn" "ResourceArn" args in
      let secret_arn = text_arg "secretArn" "SecretArn" args in
      if statement == "" || cluster_arn == "" || secret_arn == ""
      then ok ("", "", "")
      else elim (host.stmt_hash statement) [
        | none ↦ err value_error
        | some hash ↦ ok (cluster_arn, secret_arn, hash)
      ]

  -- `len(json.dumps(args).encode("utf-8"))`
  unfoldable pub static_size : Fields F → ℤ
  static_size args = json_size (dict args)

  -- the field lengths of the records, added up
  unfoldable pub row_bytes : List (Fields F) → ℕ
  row_bytes [] = 0
  row_bytes (f ∷ fs) =
      length (codes (text_of host (get_or "stringValue" (str "") f))) + row_bytes fs

  unfoldable pub total_bytes : List (List (Fields F)) → ℕ
  total_bytes [] = 0
  total_bytes (row ∷ rows) = row_bytes row + total_bytes rows

-- `context.setdefault("_data_vol_cache", {})`
abbrev pub shared_sizes : {F : Type 0} → World F → Dict String ℤ
shared_sizes w = elim w.size_cache [ none ↦ [] | some sizes ↦ sizes ]

module _ {F : Type 0} where
  unfoldable pub remember_size : String → ℤ → World F → World F
  remember_size key size w = record w { size_cache = some (Dict.put key size (shared_sizes w)) }

  unfoldable pub remember_both : String → ℤ → World F → World F
  remember_both key size w = record w {
    size_cache = some (Dict.put key size (shared_sizes w));
    lru = Dict.put key size w.lru;
  }

  -- The caches, and then the estimate: `some (size, b)` is a size to be cached if `b`.
  unfoldable pub cached_or : String → ℤ → Option (ℤ × Bool) → Eval F ℤ
  cached_or key static estimate = do
    modify (λ w. record w { size_cache = some (shared_sizes w) })
    own ← gets (λ w. Dict.get key (shared_sizes w))
    shared ← gets (λ w. Dict.get key w.lru)
    elim own [
      | some size ↦ pure size
      | none ↦ elim shared [
        | some size ↦ (do modify (remember_size key size); pure size)
        | none ↦ elim estimate [
          | none ↦ pure static
          | some (size, keep) ↦
              if keep then (do modify (remember_both key size); pure size) else pure size
        ]
      ]
    ]

module _ {F : Type 0} ⦃fl : Float F⦄ (host : Host F) where
  -- a failed `head_object` is estimated by the arguments, and that is cached
  unfoldable pub s3_estimate : String → String → Fields F → Option (ℤ × Bool)
  s3_estimate bucket key args = elim host.s3_head [
    | none ↦ none
    | some head_object ↦ elim (head_object bucket key) [
      | none ↦ some (static_size host args, true)
      | some size ↦ some (size, true)
    ]
  ]

  unfoldable pub estimate_s3_object_size : Fields F → Eval F ℤ
  estimate_s3_object_size args =
      let (bucket, key) = s3_head_cache_key host args in
      if bucket == "" || key == ""
      then pure (static_size host args)
      else cached_or (str_append "s3_head:" (str_append bucket (str_append "/" key)))
          (static_size host args) (s3_estimate bucket key args)

  -- a failed statement is estimated by the arguments, and that is not cached
  unfoldable pub rds_estimate : String → String → Fields F → Option (ℤ × Bool)
  rds_estimate cluster_arn secret_arn args = elim host.rds_execute [
    | none ↦ none
    | some execute ↦
        elim (execute cluster_arn secret_arn (text_arg host "database" "Database" args)
          (str_append "EXPLAIN " (text_arg host "Statement" "statement" args))) [
            | none ↦ some (static_size host args, false)
            | some rows ↦ some (
              if ltb 0 (total_bytes host rows)
                  then pos (total_bytes host rows)
                  else static_size host args,
              true,
            )
          ]
  ]

  -- the estimate under the parts of a cache key
  unfoldable pub rds_size_of : Fields F → String × String × String → Eval F ℤ
  rds_size_of args (cluster_arn, secret_arn, hash) =
      if cluster_arn == "" || secret_arn == "" || hash == ""
      then pure (static_size host args)
      else cached_or (str_append "rds_explain:" (str_append cluster_arn (str_append ":" hash)))
          (static_size host args) (rds_estimate cluster_arn secret_arn args)

  unfoldable pub estimate_rds_query_size : Fields F → Eval F ℤ
  estimate_rds_query_size args = lift (rds_explain_cache_key host args) >>= rds_size_of args

  unfoldable pub byte_count : Estimator → Fields F → Eval F ℤ
  byte_count s3_get_byte_estimate args = estimate_s3_object_size args
  byte_count rds_query_result_estimate args = estimate_rds_query_size args
  byte_count static_arg_size args = pure (static_size host args)

  unfoldable pub eval_data_volume : ℤ → Operator → Estimator → Context F → Eval F Bool
  eval_data_volume threshold operator estimator c = do
    bytes ← byte_count estimator c.arguments
    pure (compares_int operator bytes threshold)
