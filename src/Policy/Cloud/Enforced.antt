-- ===== src/Policy/Cloud/Enforced.antt =====
-- tessera/policy/cloud_loader.py: a row of the cache that is no policy does not keep the others out.
use mathlib.Core.Path.{subst}
use cloudmorph_tessera.Prelude.{
  ◌≡◌, refl, ap, ◌∙◌, String, Bool, true, not, Option, none, some, List, [], ◌∷◌, ◌++◌, length, all,
  ◌==◌, string_eq, Bool-cases, inl, inr, append_assoc, append-nil, and_split, if◌then◌else◌, sym,
}
use cloudmorph_tessera.Dict
use cloudmorph_tessera.Dict.{Dict, get-put}
use cloudmorph_tessera.Python.Result.{Exception, Result, ok, err}
use cloudmorph_tessera.Python.Value.{Value}
use cloudmorph_tessera.Policy.Schema.{Policy}
use cloudmorph_tessera.Policy.Loader.Files.{Libraries, is_caught}
use cloudmorph_tessera.Policy.Cloud.Rows.{
  CloudRow, CloudBackedPolicyLoader, Loaded, id_given, body_of, empty_body, gathered, counted_out,
  parse_policy_yaml, load_row, load_rows, load_cloud_policies,
}

module _ {F : Type 0} where
  -- what an enabled row adds to the policies
  abbrev pub policy_in : Option (Result (Policy F)) → List (Policy F)
  policy_in none = []
  policy_in (some (ok p)) = p ∷ []
  policy_in (some (err x)) = []

  -- the error that is recorded for a key, from the one before and a row
  abbrev pub fault_in : Bool → Option (Result (Policy F)) → Option Exception → Option Exception
  fault_in own none o = o
  fault_in own (some (ok p)) o = o
  fault_in own (some (err x)) o = if own then some x else o

  -- no error but those that the loader catches
  abbrev pub is_handled : Option (Result (Policy F)) → Bool
  is_handled none = true
  is_handled (some (ok p)) = true
  is_handled (some (err x)) = is_caught x

  applied : String → Option (Result (Policy F)) → Loaded F → Option Exception × Loaded F
  applied pid none s = (none, s)
  applied pid (some r) s = gathered pid r s

  -- a loader that has raised nothing, with these policies and this error under the key
  abbrev IsAt : String → List (Policy F) → Option Exception → Option Exception × Loaded F → Type 0
  IsAt k out o s = (s.0 ≡ none) × (s.1.0 ≡ out) × (Dict.get k s.1.1.cloud_errors ≡ o)

  applied-IsAt :
      (k pid : String) (r : Option (Result (Policy F))) (s : Loaded F)
      → is_handled r ≡ true
      → IsAt k
          (s.0 ++ policy_in r)
          (fault_in (pid == k) r (Dict.get k s.1.cloud_errors))
          (applied pid r s)
  unfolding applied
  applied-IsAt k pid none (out, l) h = (refl, sym (append-nil out), refl)
  applied-IsAt k pid (some (ok p)) (out, l) h = (refl, refl, refl)
  applied-IsAt k pid (some (err x)) (out, l) h =
      rw h (refl, sym (append-nil out), get-put pid k x l.cloud_errors)

module _ {F : Type 0} (lib : Libraries F) (safe_load : String → Result (Value F)) where
  -- nothing for a row that is not enabled, an error for an empty body
  abbrev pub verdict : CloudRow → Option (Result (Policy F))
  verdict row =
      if not row.enabled
      then none
      else some (
          if body_of row == ""
          then err empty_body
          else parse_policy_yaml lib safe_load (body_of row))

  abbrev pub enforced : List CloudRow → List (Policy F)
  enforced [] = []
  enforced (row ∷ rows) = policy_in (verdict row) ++ enforced rows

  abbrev pub fault : String → List CloudRow → Option Exception → Option Exception
  fault k [] o = o
  fault k (row ∷ rows) o = fault k rows (fault_in (id_given row.policy_id == k) (verdict row) o)

  load_row-applied :
      (row : CloudRow) (s : Loaded F)
      → load_row lib safe_load row s ≡ applied (id_given row.policy_id) (verdict row) s
  unfolding load_row applied
  load_row-applied row (out, l) = elim (Bool-cases row.enabled) [
    | inl on ↦ elim (Bool-cases (body_of row == "")) [
      | inl empty ↦ rw (on, empty) refl
      | inr body ↦ rw (on, body) refl
    ]
    | inr off ↦ rw off refl
  ]

  load_row-IsAt :
      (k : String) (row : CloudRow) (s : Loaded F)
      → is_handled (verdict row) ≡ true
      → IsAt k
          (s.0 ++ policy_in (verdict row))
          (fault_in (id_given row.policy_id == k) (verdict row) (Dict.get k s.1.cloud_errors))
          (load_row lib safe_load row s)
  load_row-IsAt k row s h =
      subst
        (λ t.
          IsAt k (s.0 ++ policy_in (verdict row))
            (fault_in (id_given row.policy_id == k) (verdict row) (Dict.get k s.1.cloud_errors)) t)
        (sym (load_row-applied row s)) (applied-IsAt k (id_given row.policy_id) (verdict row) s h)

  load_rows-IsAt :
      (k : String) (rows : List CloudRow) (s : Loaded F)
      → all (λ row. is_handled (verdict row)) rows ≡ true
      → IsAt k
          (s.0 ++ enforced rows)
          (fault k rows (Dict.get k s.1.cloud_errors))
          (load_rows lib safe_load rows s)
  unfolding load_rows
  load_rows-IsAt k [] s h = (refl, sym (append-nil s.0), refl)
  load_rows-IsAt k (row ∷ rows) s h =
      let (here, there) = and_split (is_handled (verdict row)) _ h in
      let s' = (load_row lib safe_load row s).1 in
      let (quiet, grown, noted) = load_row-IsAt k row s here in
      let (rest_quiet, rest, last) = load_rows-IsAt k rows s' there in
      rw (quiet, load_rows)
        (
          rest_quiet,
          rest
              ∙ ap (λ out. out ++ enforced rows) grown
              ∙ append_assoc s.0 (policy_in (verdict row)) (enforced rows),
          last ∙ ap (fault k rows) noted,
        )

  counted_out-IsAt :
      (k : String) (out : List (Policy F)) (o : Option Exception) (s : Option Exception × Loaded F)
      → IsAt k out o s
      → ((counted_out s).0 ≡ ok out)
        × ((counted_out s).1.cloud_count ≡ length out)
        × (Dict.get k (counted_out s).1.cloud_errors ≡ o)
  counted_out-IsAt k out o (none, (found, l)) (quiet, same, noted) =
      (ap ok same, ap length same, noted)
  counted_out-IsAt k out o (some x, (found, l)) (quiet, same, noted) = cc

  -- Where the parsing of no enabled row raises an error that the loader does not catch, loading the
  -- rows of the cache succeeds. It gives the policies of the enabled rows with a body that parses, in the
  -- order of the rows, and counts them; the other enabled rows keep none of these out. Under an id it
  -- records the error of the last enabled row of that id that is no policy, and no error from before.
  pub load_cloud_policies_isolates :
      (k : String) (rows : List CloudRow) (l : CloudBackedPolicyLoader)
      → all (λ row. is_handled (verdict row)) rows ≡ true
      → ((load_cloud_policies lib safe_load rows l).0 ≡ ok (enforced rows))
        × ((load_cloud_policies lib safe_load rows l).1.cloud_count ≡ length (enforced rows))
        × (Dict.get k (load_cloud_policies lib safe_load rows l).1.cloud_errors ≡ fault k rows none)
  unfolding load_cloud_policies Dict.get
  load_cloud_policies_isolates k rows l h =
      counted_out-IsAt k (enforced rows) (fault k rows none)
        (load_rows lib safe_load rows ([], record l { cloud_errors = [] }))
        (load_rows-IsAt k rows ([], record l { cloud_errors = [] }) h)
