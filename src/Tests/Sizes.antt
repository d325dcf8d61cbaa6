-- ===== src/Tests/Sizes.antt =====
-- The size lookups at a concrete object and a concrete statement.
use cloudmorph_tessera.Prelude.{ℕ, ◌≡◌, refl, String, some, [], ◌∷◌, ℤ, pos, string_eq}
use cloudmorph_tessera.Dict
use cloudmorph_tessera.Dict.{Dict}
use cloudmorph_tessera.Python.Result.{ok}
use cloudmorph_tessera.Python.Value.{Fields, str, end, field, truthy, get_or}
use cloudmorph_tessera.Policy.Eval.{Host}
use cloudmorph_tessera.Policy.Conditions.Arguments.{text_of}
use cloudmorph_tessera.Policy.Conditions.Volume.{
  estimate_s3_object_size, s3_head_cache_key, rds_explain_cache_key, text_arg, total_bytes,
  row_bytes,
}
use cloudmorph_tessera.Policy.Conditions.Sync.{
  s3_head_size_sync, rds_explain_size_sync, rds_size_sync_of, fetch_or_cached, s3_fetch, rds_fetch,
}
use cloudmorph_tessera.Policy.Conditions.Sync.Agrees.{estimate_s3-sync}
use cloudmorph_tessera.Tests.Fixtures.{fl, host, world}

-- an object of 42 bytes, and a statement that gives one field of five characters
abbrev online : Host ℕ
online = record host {
  s3_head = some (λ bucket key. some (pos 42));
  rds_execute =
      some
        (λ cluster secret database sql. some ((field "stringValue" (str "plan!") end ∷ []) ∷ []));
}

abbrev object : Fields ℕ
object = field "Bucket" (str "b") (field "Key" (str "k") end)

abbrev statement : Fields ℕ
statement =
    field "Statement" (str "q") (field "resourceArn" (str "c") (field "secretArn" (str "s") end))

abbrev object_sizes : Dict String ℤ
object_sizes = ("s3_head:b/k", pos 42) ∷ []

abbrev statement_sizes : Dict String ℤ
statement_sizes = ("rds_explain:c:q", pos 5) ∷ []

object_found : s3_head_size_sync online object [] ≡ (("s3_head:b/k", some (pos 42)), object_sizes)
unfolding s3_head_size_sync s3_head_cache_key text_arg truthy get_or text_of fetch_or_cached
    Dict.get s3_fetch Dict.put
object_found = refl

statement_found :
    rds_explain_size_sync online statement []
    ≡ ok (("rds_explain:c:q", some (pos 5)), statement_sizes)
unfolding rds_explain_size_sync rds_size_sync_of rds_explain_cache_key text_arg truthy get_or
    text_of fetch_or_cached Dict.get rds_fetch total_bytes row_bytes Dict.put
statement_found = refl

estimate_s3-sync_example :
    (estimate_s3_object_size online object (record world { lru = object_sizes })).0 ≡ ok (pos 42)
estimate_s3-sync_example =
    estimate_s3-sync online object [] object_sizes "s3_head:b/k" (pos 42)
      (record world { lru = object_sizes }) object_found refl (unfold Dict.get in refl)
