-- ===== src/Policy/Eval/Returns.antt =====
-- Evaluations that do not raise.
use cloudmorph_tessera.Prelude.{
  ◌≡◌, refl, Bool, true, false, List, [], ◌∷◌, if◌then◌else◌, string_eq,
}
use cloudmorph_tessera.Python.Result.{ok}
use cloudmorph_tessera.Policy.Eval.{World, Eval, pure, modify, gets, any_of_list, ◌>>=◌, >>=_ok}

-- In every world the evaluation ends with a value.
abbrev pub Returns : {F A : Type 0} → Eval F A → Type 0
Returns {F = F} {A = A} m = (w : World F) → (a : A) × (w' : World F) × (m w ≡ (ok a, w'))

pub >>=-Returns :
    {F A B : Type 0} (m : Eval F A) (f : A → Eval F B)
    → Returns m
    → ((a : A) → Returns (f a))
    → Returns (m >>= f)
>>=-Returns m f h k w =
    let (a, w', p) = h w in let (b, w'', q) = k a w' in (b, w'', rw (>>=_ok m f p) q)

pub pure-Returns : {F A : Type 0} (a : A) → Returns {F = F} (pure a)
pure-Returns a w = (a, w, refl)

pub modify-Returns : {F : Type 0} (f : World F → World F) → Returns (modify f)
modify-Returns f w = (tt, f w, refl)

pub gets-Returns : {F A : Type 0} (f : World F → A) → Returns (gets f)
gets-Returns f w = (f w, w, refl)

pub any_of_list-Returns :
    {F A : Type 0} (test : A → Eval F Bool) (xs : List A)
    → ((x : A) → Returns (test x))
    → Returns (any_of_list test xs)
unfolding any_of_list
any_of_list-Returns test [] h = pure-Returns false
any_of_list-Returns test (x ∷ xs) h =
    >>=-Returns (test x) _ (h x) (λ hit. next hit (any_of_list-Returns test xs h))
  where
    next :
        (hit : Bool)
        → Returns (any_of_list test xs)
        → Returns (if hit then pure true else any_of_list test xs)
    next true r = pure-Returns true
    next false r = r
