-- ===== src/Aws/Translator/RoundTrip.antt =====
-- A command that a handler builds is read back as the handler's name.
use cloudmorph_tessera.Prelude.{
  ◌≡◌, sym, ap, ◌∙◌, String, none, some, List, [], ◌∷◌, ◌++◌, append-nil, string_eq,
}
use cloudmorph_tessera.Dict
use cloudmorph_tessera.Dict.{Dict}
use cloudmorph_tessera.Python.Float.{Float}
use cloudmorph_tessera.Python.Result.{ok, ◌>>=◌, >>=-eq-ok, ok-injective}
use cloudmorph_tessera.Python.Value.{Fields, str, end, field, get_or}
use cloudmorph_tessera.Python.Words.{words, unwords, words-concat}
use cloudmorph_tessera.Aws.Translator.{
  Part, Texts, Registry, render_all, built, to_call_aws, prefix_of, registered_name, canonical_of,
  kebab_to_camel, parsed, from_call_aws,
}

-- The words of a command begin with those of its prefix.
words-unwords :
    (prefix : String) (parts : List String)
    → (rest : List String) × (words (unwords (prefix ∷ parts)) ≡ words prefix ++ rest)
unfolding unwords
words-unwords prefix [] = ([], sym (append-nil (words prefix)))
words-unwords prefix (s ∷ parts) =
    (words (unwords (s ∷ parts)), words-concat prefix (unwords (s ∷ parts)))

module _ {F : Type 0} where
  -- The prefix of a registered name is three words, the first of them `aws`, and leads back to the name.
  pub record LeadsBack (r : Registry F) (canonical prefix service cli_verb : String) : Type 0 where
    pub three : words prefix ≡ "aws" ∷ service ∷ cli_verb ∷ []
    pub reverse : Dict.get (prefix_of service cli_verb) r.reverse_prefixes ≡ some canonical

module _ {F : Type 0} ⦃fl : Float F⦄ (texts : Texts F) where
  words-built :
      (prefix : String) (parts : List Part) (args : Fields F) (command : String)
      → built texts prefix parts args ≡ ok command
      → (rest : List String) × (words command ≡ words prefix ++ rest)
  unfolding built
  words-built prefix parts args command p =
      let (appended, pr, q) = >>=-eq-ok (render_all texts parts args) _ p in
      let (rest, e) = words-unwords prefix appended in (rest, ap words (sym (ok-injective q)) ∙ e)

  parsed-LeadsBack :
      (overrides : Dict String String) (r : Registry F) (canonical prefix service cli_verb : String)
      (rest : List String)
      → LeadsBack r canonical prefix service cli_verb
      → parsed texts overrides r ("aws" ∷ service ∷ cli_verb ∷ rest) ≡ some canonical
  parsed-LeadsBack overrides r canonical prefix service cli_verb rest l =
      ap
        (λ o. elim o [
          | none ↦
              registered_name texts r
                (canonical_of service (kebab_to_camel texts overrides cli_verb))
          | some c ↦ some c
        ])
        l.reverse

  -- Where a canonical name has a handler that builds its command from a prefix and parts, and the prefix
  -- is three words, the first of them `aws`, that the registry leads back to that name: whatever the
  -- arguments, a command that `to_call_aws` makes for the name is read by `from_call_aws` as the name.
  pub from_call_aws-to_call_aws :
      (overrides : Dict String String) (r : Registry F) (canonical prefix service cli_verb : String)
      (parts : List Part) (args : Fields F) (command : String)
      → Dict.get canonical r.handlers ≡ some (built texts prefix parts)
      → LeadsBack r canonical prefix service cli_verb
      → to_call_aws r canonical args ≡ ok (some command)
      → from_call_aws texts overrides r (field "command" (str command) end) ≡ some canonical
  unfolding to_call_aws from_call_aws get_or
  from_call_aws-to_call_aws overrides r canonical prefix service cli_verb parts args command h l p =
      let made : (built texts prefix parts args >>= λ text. ok (some text)) ≡ ok (some command) =
        ap (λ o. elim o [ none ↦ ok none | some handler ↦ handler args >>= λ text. ok (some text) ])
          (sym h)
        ∙ p in
      let (text, pb, q) = >>=-eq-ok (built texts prefix parts args) _ made in
      let (rest, e) = words-built prefix parts args command (pb ∙ same_text (ok-injective q)) in
      ap (parsed texts overrides r) (e ∙ ap (λ ws. ws ++ rest) l.three)
      ∙ parsed-LeadsBack overrides r canonical prefix service cli_verb rest l
    where
      same_text : {a b : String} → some a ≡ some b → ok a ≡ ok b
      same_text {a} {b} e = cc (e)
