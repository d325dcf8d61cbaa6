-- ===== src/Policy/Cloud/Overrides.antt =====
-- tessera/policy/cloud_loader.py: which policy the merge keeps of each id.
use cloudmorph_tessera.Prelude.{
  ◌≡◌, refl, ap, ◌∙◌, sym, String, Bool, false, ◌&&◌, Option, none, some, List, [], ◌∷◌, any, ◌==◌,
  string_eq, arith, Bool-cases, inl, inr, if◌then◌else◌,
}
use cloudmorph_tessera.Dict
use cloudmorph_tessera.Dict.{Dict, get-put}
use cloudmorph_tessera.Policy.Schema.{Policy}
use cloudmorph_tessera.Policy.Loader.Sorted.{IsFalling, sorted_policies-IsFalling}
use cloudmorph_tessera.Policy.Loader.Files.{policies_of}
use cloudmorph_tessera.Policy.Cloud.{by_id, merge}

module _ {F : Type 0} where
  -- the last policy of that id
  abbrev pub latest : String → List (Policy F) → Option (Policy F)
  latest k [] = none
  latest k (p ∷ policies) = elim (latest k policies) [
    | none ↦ if p.id == k then some p else none
    | some q ↦ some q
  ]

  abbrev pub or_local : Option (Policy F) → Option (Policy F) → Option (Policy F)
  or_local none other = other
  or_local (some p) other = some p

  or_local-none : (found : Option (Policy F)) → or_local found none ≡ found
  or_local-none none = refl
  or_local-none (some p) = refl

  -- whether there is a policy, and the test holds of it
  abbrev pub holds : (Policy F → Bool) → Option (Policy F) → Bool
  holds test none = false
  holds test (some p) = test p

  -- each policy stands once, under its own id
  IsKeyed : Dict String (Policy F) → Type 0
  IsKeyed [] = Unit
  IsKeyed ((k, p) ∷ d) = (p.id ≡ k) × (Dict.get k d ≡ none) × IsKeyed d

  put-IsKeyed :
      (p : Policy F) (d : Dict String (Policy F)) → IsKeyed d → IsKeyed (Dict.put p.id p d)
  unfolding IsKeyed Dict.put Dict.get
  put-IsKeyed p [] h = (refl, refl, tt)
  put-IsKeyed p ((j, q) ∷ d) (own, once, h) = elim (Bool-cases (j == p.id)) [
    | inl same ↦ rw same (sym ((string_eq.beq_iff j p.id).0 same), once, h)
    | inr other ↦ rw other (
      own,
      ground (
        arith,
        get-put p.id j p d,
        once,
        other,
        string_eq.beq_iff p.id j,
        string_eq.beq_iff j p.id,
      ),
      put-IsKeyed p d h,
    )
  ]

  by_id-IsKeyed :
      (d : Dict String (Policy F)) (policies : List (Policy F))
      → IsKeyed d
      → IsKeyed (by_id d policies)
  unfolding by_id
  by_id-IsKeyed d [] h = h
  by_id-IsKeyed d (p ∷ policies) h = by_id-IsKeyed (Dict.put p.id p d) policies (put-IsKeyed p d h)

  get-by_id :
      (k : String) (d : Dict String (Policy F)) (policies : List (Policy F))
      → Dict.get k (by_id d policies) ≡ or_local (latest k policies) (Dict.get k d)
  unfolding by_id
  get-by_id k d [] = refl
  get-by_id k d (p ∷ policies) =
      ground (arith, get-by_id k (Dict.put p.id p d) policies, get-put p.id k p d)

  any-policies_of :
      (k : String) (test : Policy F → Bool) (d : Dict String (Policy F))
      → IsKeyed d
      → any (λ p. p.id == k && test p) (policies_of d) ≡ holds test (Dict.get k d)
  unfolding IsKeyed policies_of Dict.get
  any-policies_of k test [] h = refl
  any-policies_of k test ((j, q) ∷ d) (own, once, h) = elim (Bool-cases (j == k)) [
    | inl same ↦ ground (arith, any-policies_of k test d h, own, once, same, string_eq.beq_iff j k)
    | inr other ↦ ground (arith, any-policies_of k test d h, own, other)
  ]

  -- Of each id, the merge of the local and the cloud's policies holds the last of the cloud's, or else
  -- the last of the local ones, or else none: a test holds of a merged policy of that id exactly if
  -- it holds of that policy. The merged policies come by falling priority, and by rising id within one
  -- priority.
  pub merge_overrides :
      (k : String) (test : Policy F → Bool) (local cloud : List (Policy F))
      → (any (λ p. p.id == k && test p) (merge local cloud)
          ≡ holds test (or_local (latest k cloud) (latest k local)))
        × IsFalling (merge local cloud)
  unfolding merge IsKeyed Dict.get
  merge_overrides k test local cloud =
      let d = by_id [] local in
      let all_of = policies_of (by_id d cloud) in
      let (ordered, kept) = sorted_policies-IsFalling all_of (λ p. p.id == k && test p) in
      (
        kept
            ∙ any-policies_of k test (by_id d cloud)
                (by_id-IsKeyed d cloud (by_id-IsKeyed [] local tt))
            ∙ ap (holds test) (get-by_id k d cloud)
            ∙ ap (λ o. holds test (or_local (latest k cloud) o)) (get-by_id k [] local)
            ∙ ap (λ o. holds test (or_local (latest k cloud) o)) (or_local-none (latest k local)),
        ordered,
      )
