-- ===== src/Policy/Loader/Reload.antt =====
-- A reload keeps the errors of one file from the policies of the others.
use cloudmorph_tessera.Prelude.{
  ◌≡◌, refl, sym, ap, ◌∙◌, String, Bool, true, false, ◌&&◌, ◌||◌, Option, none, some, List, [], ◌∷◌,
  ◌++◌, contains, ◌==◌, string_eq, if◌then◌else◌, arith, Bool-cases, inl, inr, or_split, eq_iff,
  beq_refl, and_both,
}
use cloudmorph_tessera.Dict
use cloudmorph_tessera.Dict.{Dict}
use cloudmorph_tessera.Python.Result.{Exception, ok}
use cloudmorph_tessera.Policy.Loader.{sorted_policies}
use cloudmorph_tessera.Policy.Loader.Files.{
  PolicyFile, FilesystemPolicyLoader, Libraries, read_policy, visit_all, seen_paths, still_there,
  policies_of, pruned, is_startup_of, settled, load_all,
}
use cloudmorph_tessera.Policy.Loader.Rounds.{
  is_policy_file, Cell, cell, outcome, outcomes, all_contained, cell-visit_all,
}

module _ {V : Type 0} where
  get-still_there :
      (k : String) (seen : List String) (d : Dict String V)
      → Dict.get k (still_there seen d) ≡ (if contains k seen then Dict.get k d else none)
  unfolding still_there Dict.get
  get-still_there k seen [] = ground arith
  get-still_there k seen ((path, v) ∷ d) = ground (arith, eq_iff path k, get-still_there k seen d)

module _ {F : Type 0} (lib : Libraries F) where
  cell-pruned :
      (k : String) (files : List (PolicyFile F)) (l : FilesystemPolicyLoader F)
      → cell k (pruned files l) ≡ (if contains k (seen_paths files) then cell k l else (none, none))
  cell-pruned k files l = elim (Bool-cases (contains k (seen_paths files))) [
    | inl e ↦
        rw
          (
            get-still_there k (seen_paths files) l.policies,
            get-still_there k (seen_paths files) l.errors,
            e,
          )
          refl
    | inr e ↦
        rw
          (
            get-still_there k (seen_paths files) l.policies,
            get-still_there k (seen_paths files) l.errors,
            e,
          )
          refl
  ]

  contains-seen_paths :
      (k : String) (f : PolicyFile F) (files : List (PolicyFile F))
      → contains k (seen_paths (f ∷ files))
        ≡ ((is_policy_file f && f.path == k) || contains k (seen_paths files))
  unfolding seen_paths
  contains-seen_paths k f files = ground (arith, eq_iff k f.path, eq_iff f.path k)

  outcomes_absent :
      (k : String) (files : List (PolicyFile F)) (c : Cell F)
      → contains k (seen_paths files) ≡ false
      → outcomes lib k files c ≡ c
  outcomes_absent k [] c h = refl
  outcomes_absent k (f ∷ files) c h =
      let (other, rest) =
        or_split (is_policy_file f && f.path == k) _ (sym (contains-seen_paths k f files) ∙ h) in
      rw other (outcomes_absent k files c rest)

  outcomes_one :
      (before after : List (PolicyFile F)) (f : PolicyFile F) (c : Cell F)
      → is_policy_file f ≡ true
      → contains f.path (seen_paths before) ≡ false
      → contains f.path (seen_paths after) ≡ false
      → outcomes lib f.path (before ++ (f ∷ after)) c ≡ outcome (read_policy lib f) c
  outcomes_one [] after f c p b a =
      ap (λ (b : Bool). outcomes lib f.path after (if b then outcome (read_policy lib f) c else c))
        (and_both (is_policy_file f) (f.path == f.path) p (beq_refl f.path))
      ∙ outcomes_absent f.path after (outcome (read_policy lib f) c) a
  outcomes_one (g ∷ before) after f c p b a =
      let (other, rest) =
        or_split (is_policy_file g && g.path == f.path) _
          (sym (contains-seen_paths f.path g before) ∙ b) in
      ap
        (λ (b : Bool).
          outcomes lib f.path (before ++ (f ∷ after))
            (if b then outcome (read_policy lib g) c else c))
        other
      ∙ outcomes_one before after f c p rest a

  seen_paths_one :
      (before after : List (PolicyFile F)) (f : PolicyFile F)
      → is_policy_file f ≡ true
      → contains f.path (seen_paths (before ++ (f ∷ after))) ≡ true
  seen_paths_one [] after f p = contains-seen_paths f.path f after ∙ rw (p, beq_refl f.path) refl
  seen_paths_one (g ∷ before) after f p =
      contains-seen_paths f.path g (before ++ (f ∷ after))
      ∙ rw (seen_paths_one before after f p) (or_true (is_policy_file g && g.path == f.path))
    where
      or_true : (b : Bool) → (b || true) ≡ true
      or_true true = refl
      or_true false = refl

  settled_quiet :
      (files : List (PolicyFile F)) (visited : Option Exception × FilesystemPolicyLoader F)
      → visited.0 ≡ none
      → settled false files visited ≡ (
        ok (sorted_policies (policies_of (pruned files visited.1).policies)),
        pruned files visited.1,
      )
  settled_quiet files (none, l) quiet = refl
  settled_quiet files (some x, l) quiet = cc

  reload :
      (files : List (PolicyFile F)) (l : FilesystemPolicyLoader F)
      → is_startup_of l ≡ false
      → all_contained lib files ≡ true
      → load_all lib files l ≡ (
        ok (sorted_policies (policies_of (pruned files (visit_all lib false files l).1).policies)),
        pruned files (visit_all lib false files l).1,
      )
  unfolding load_all
  reload files l later h =
      ap (λ b. settled b files (visit_all lib b files l)) later
      ∙ settled_quiet files (visit_all lib false files l) (cell-visit_all lib "" files l h).0

  -- A reload, which finds the loader with a policy or an error, and in which the errors of policy files
  -- are such as `_load_file` catches: it returns the sorted policies that the loader then has. A policy file
  -- whose path no other file has is taken up if it can be read, and then has no error; if not, its
  -- error is kept and its policy stays the one before. Of a path that no policy file has, nothing is left.
  pub load_all_isolates :
      (before after : List (PolicyFile F)) (f : PolicyFile F) (l : FilesystemPolicyLoader F)
      → is_startup_of l ≡ false
      → all_contained lib (before ++ (f ∷ after)) ≡ true
      → is_policy_file f ≡ true
      → contains f.path (seen_paths before) ≡ false
      → contains f.path (seen_paths after) ≡ false
      → (l' : FilesystemPolicyLoader F) × (load_all lib (before ++ (f ∷ after)) l
          ≡ (ok (sorted_policies (policies_of l'.policies)), l'))
        × (cell f.path l' ≡ outcome (read_policy lib f) (cell f.path l))
        × ((k : String)
            → contains k (seen_paths (before ++ (f ∷ after))) ≡ false
            → cell k l' ≡ (none, none))
  load_all_isolates before after f l later h p b a = (
    pruned (before ++ (f ∷ after)) (visit_all lib false (before ++ (f ∷ after)) l).1,
    reload (before ++ (f ∷ after)) l later h,
    cell-pruned f.path (before ++ (f ∷ after)) (visit_all lib false (before ++ (f ∷ after)) l).1
        ∙ rw (seen_paths_one before after f p) (
            (cell-visit_all lib f.path (before ++ (f ∷ after)) l h).1
            ∙ outcomes_one before after f (cell f.path l) p b a),
    λ k gone.
        cell-pruned k (before ++ (f ∷ after)) (visit_all lib false (before ++ (f ∷ after)) l).1
        ∙ rw gone refl,
  )
