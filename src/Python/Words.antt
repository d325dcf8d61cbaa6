-- ===== src/Python/Words.antt =====
-- Texts as sequences of words: `+`, `s.split()` and `" ".join(...)`.
use Prim.Native.Char.{Char, code}
use mathlib.Core.Path.{subst}
use cloudmorph_tessera.Prelude.{
  ◌≡◌, refl, ap, ◌∙◌, sym, String, Bool, true, false, ◌&&◌, ◌||◌, List, [], ◌∷◌, ◌++◌, leb, nat_beq,
  if◌then◌else◌, Bool-cases, inl, inr, ℕ,
}

-- `s + t`
unfoldable pub concat : String → String → String
concat String.[] t = t
concat (String.◌∷◌ c s) t = String.◌∷◌ c (concat s t)

-- `c.isspace()`
unfoldable pub is_space : ℕ → Bool
is_space c =
    (leb 9 c && leb c 13)
    || ((leb 28 c && leb c 32)
        || (nat_beq c 133
            || (nat_beq c 160
                || (nat_beq c 5760
                    || ((leb 8192 c && leb c 8202)
                        || (nat_beq c 8232
                            || (nat_beq c 8233
                                || (nat_beq c 8239 || (nat_beq c 8287 || nat_beq c 12288)))))))))

-- a character in front of a text whose words are known
abbrev pub glued : Char → String → List String → List String
glued c String.[] ws = String.◌∷◌ c String.[] ∷ ws
glued c (String.◌∷◌ d s) [] = String.◌∷◌ c String.[] ∷ []
glued c (String.◌∷◌ d s) (w ∷ ws) =
    if is_space (code d) then String.◌∷◌ c String.[] ∷ w ∷ ws else String.◌∷◌ c w ∷ ws

-- `s.split()`
unfoldable pub words : String → List String
unfolding is_space
words String.[] = []
words (String.◌∷◌ c s) = let rest = words s in if is_space (code c) then rest else glued c s rest

-- `" ".join(parts)`
unfoldable pub unwords : List String → String
unfolding concat
unwords [] = ""
unwords (s ∷ []) = s
unwords (s ∷ t ∷ parts) = concat s (String.◌∷◌ " " (unwords (t ∷ parts)))

glued_space :
    (c d : Char) (s t : String) (ws vs : List String)
    → is_space (code d) ≡ true
    → glued c (String.◌∷◌ d t) (ws ++ vs) ≡ glued c (String.◌∷◌ d s) ws ++ vs
glued_space c d s t [] [] space = refl
glued_space c d s t [] (v ∷ vs) space = rw space refl
glued_space c d s t (w ∷ ws) vs space = rw space refl

glued_word :
    (c d : Char) (s t w : String) (ws vs : List String)
    → is_space (code d) ≡ false
    → glued c (String.◌∷◌ d t) ((w ∷ ws) ++ vs) ≡ glued c (String.◌∷◌ d s) (w ∷ ws) ++ vs
glued_word c d s t w ws vs word = rw word refl

-- a word comes of a character that is no space
glued_some :
    (c : Char) (s : String) (ws : List String)
    → (w : String) × (rest : List String) × (glued c s ws ≡ w ∷ rest)
glued_some c String.[] ws = (_, _, refl)
glued_some c (String.◌∷◌ d s) [] = (_, _, refl)
glued_some c (String.◌∷◌ d s) (w ∷ ws) = elim (Bool-cases (is_space (code d))) [
  | inl space ↦ (String.◌∷◌ c String.[], w ∷ ws, rw space refl)
  | inr word ↦ (String.◌∷◌ c w, ws, rw word refl)
]

glued_first :
    (c : Char) (t : String) (vs : List String)
    → glued c (String.◌∷◌ " " t) vs ≡ String.◌∷◌ c String.[] ∷ vs
unfolding is_space
glued_first c t [] = refl
glued_first c t (v ∷ vs) = refl

words_word :
    (d : Char) (s : String)
    → is_space (code d) ≡ false
    → words (String.◌∷◌ d s) ≡ glued d s (words s)
unfolding words
words_word d s word = rw word refl

glued-append :
    (c d : Char) (s t : String) (vs : List String)
    → glued c (String.◌∷◌ d t) (words (String.◌∷◌ d s) ++ vs)
      ≡ glued c (String.◌∷◌ d s) (words (String.◌∷◌ d s)) ++ vs
glued-append c d s t vs = elim (Bool-cases (is_space (code d))) [
  | inl space ↦ glued_space c d s t (words (String.◌∷◌ d s)) vs space
  | inr word ↦
      let (w, rest, e) = glued_some d s (words s) in
      subst (λ ws. glued c (String.◌∷◌ d t) (ws ++ vs) ≡ glued c (String.◌∷◌ d s) ws ++ vs)
        (sym (words_word d s word ∙ e)) (glued_word c d s t w rest vs word)
]

-- Words on both sides of a space are the words of the two texts.
pub words-concat : (s t : String) → words (concat s (String.◌∷◌ " " t)) ≡ words s ++ words t
unfolding words concat
words-concat String.[] t = refl
words-concat (String.◌∷◌ c String.[]) t = elim (Bool-cases (is_space (code c))) [
  | inl space ↦ rw space refl
  | inr word ↦ rw word (glued_first c t (words t))
]
words-concat (String.◌∷◌ c (String.◌∷◌ d s)) t = elim (Bool-cases (is_space (code c))) [
  | inl space ↦ rw space (words-concat (String.◌∷◌ d s) t)
  | inr word ↦ rw word (
      ap (glued c (String.◌∷◌ d (concat s (String.◌∷◌ " " t)))) (words-concat (String.◌∷◌ d s) t)
      ∙ glued-append c d s (concat s (String.◌∷◌ " " t)) (words t))
]
