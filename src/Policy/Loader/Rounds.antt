-- ===== src/Policy/Loader/Rounds.antt =====
-- What a reload makes of each file, by its path.
use cloudmorph_tessera.Prelude.{
  ◌≡◌, refl, ap, ◌∙◌, String, Bool, true, false, not, ◌&&◌, ◌||◌, Option, none, some, List, [], ◌∷◌,
  all, ◌==◌, string_eq, if◌then◌else◌, arith, Bool-cases, inl, inr, and_split,
}
use cloudmorph_tessera.Dict
use cloudmorph_tessera.Dict.{Dict, get-put, get-pop}
use cloudmorph_tessera.Python.Result.{Exception, Result, ok, err, ◌>>=◌}
use cloudmorph_tessera.Policy.Schema.{Policy}
use cloudmorph_tessera.Policy.Loader.Files.{
  PolicyFile, FilesystemPolicyLoader, Libraries, is_internal, is_caught, read_policy, adopted,
  load_verbs, load_file, recorded, visit, visit_all,
}
use cloudmorph_tessera.Policy.ActionVerbs.{user_mappings_of}

abbrev pub is_policy_file : {F : Type 0} → PolicyFile F → Bool
is_policy_file f = not (f.name == "_action_verbs.yaml" || is_internal f.name)

-- what the loader holds of a path
abbrev pub Cell : Type 0 → Type 0
Cell F = Option (Policy F) × Option Exception

module _ {F : Type 0} where
  abbrev pub cell : String → FilesystemPolicyLoader F → Cell F
  cell k l = (Dict.get k l.policies, Dict.get k l.errors)

  -- a file that fails leaves the policy as it was
  abbrev pub outcome : Result (Policy F) → Cell F → Cell F
  outcome (ok p) c = (some p, none)
  outcome (err x) c = (c.0, some x)

  -- the exception, if there is one, is one that `_load_file` catches
  abbrev pub is_contained : Result (Policy F) → Bool
  is_contained (ok p) = true
  is_contained (err x) = is_caught x

  cell-recorded :
      (k path : String) (read : Result (Policy F)) (l : FilesystemPolicyLoader F)
      → is_contained read ≡ true
      → ((recorded false path read l).0 ≡ none)
        × (cell k (recorded false path read l).1
            ≡ (if path == k then outcome read (cell k l) else cell k l))
  cell-recorded k path (ok p) l h = (
    refl,
    elim (Bool-cases (path == k)) [
      | inl e ↦ rw (get-put path k p l.policies, get-pop path k l.errors, e) refl
      | inr e ↦ rw (get-put path k p l.policies, get-pop path k l.errors, e) refl
    ],
  )
  cell-recorded k path (err x) l h = rw h (
    refl,
    rw (get-put path k x l.errors)
        (elim (Bool-cases (path == k)) [ inl e ↦ rw e refl | inr e ↦ rw e refl ]),
  )

module _ {F : Type 0} where
  cell-adopted :
      (k : String) (builtin : Dict String (List String)) (read : Result (Dict String (List String)))
      (l : FilesystemPolicyLoader F)
      → ((adopted false builtin read l).0 ≡ none)
        × (cell k (adopted false builtin read l).1 ≡ cell k l)
  cell-adopted k builtin (err x) l = (refl, refl)
  cell-adopted k builtin (ok verbs) l = (refl, refl)

module _ {F : Type 0} (lib : Libraries F) where
  -- what the policy files of one path make of what the loader holds of it
  abbrev pub outcomes : String → List (PolicyFile F) → Cell F → Cell F
  outcomes k [] c = c
  outcomes k (f ∷ files) c =
      outcomes k files
        (if is_policy_file f && f.path == k then outcome (read_policy lib f) c else c)

  abbrev pub all_contained : List (PolicyFile F) → Bool
  all_contained = all (λ f. not (is_policy_file f) || is_contained (read_policy lib f))

  cell-visit :
      (k : String) (f : PolicyFile F) (l : FilesystemPolicyLoader F)
      → (not (is_policy_file f) || is_contained (read_policy lib f)) ≡ true
      → ((visit lib false f l).0 ≡ none)
        × (cell k (visit lib false f l).1 ≡ (
            if is_policy_file f && f.path == k
            then outcome (read_policy lib f) (cell k l)
            else cell k l))
  unfolding visit load_file load_verbs
  cell-visit k f l h = elim (Bool-cases (f.name == "_action_verbs.yaml")) [
    | inl verbs ↦
        rw verbs (cell-adopted k lib.builtin (f.document >>= user_mappings_of lib.known_verbs) l)
    | inr policy ↦ elim (Bool-cases (is_internal f.name)) [
      | inl internal ↦ rw (policy, internal) (refl, refl)
      | inr shown ↦
          rw (policy, shown)
            (cell-recorded k f.path (read_policy lib f) l (ground (arith, h, policy, shown)))
    ]
  ]

  pub cell-visit_all :
      (k : String) (files : List (PolicyFile F)) (l : FilesystemPolicyLoader F)
      → all_contained files ≡ true
      → ((visit_all lib false files l).0 ≡ none)
        × (cell k (visit_all lib false files l).1 ≡ outcomes k files (cell k l))
  unfolding visit_all
  cell-visit_all k [] l h = (refl, refl)
  cell-visit_all k (f ∷ files) l h =
      let (here, there) =
        and_split (not (is_policy_file f) || is_contained (read_policy lib f)) _ h in
      let (quiet, now) = cell-visit k f l here in
      let (rest_quiet, rest) = cell-visit_all k files (visit lib false f l).1 there in
      rw (quiet, visit_all) (rest_quiet, rest ∙ ap (outcomes k files) now)
