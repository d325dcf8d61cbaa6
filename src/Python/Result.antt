-- ===== src/Python/Result.antt =====
-- Python exceptions as values: what the modelled code raises or lets through.
use cloudmorph_tessera.Prelude.{◌≡◌, refl, String, ap, Bool, true, false, if◌then◌else◌}

pub data Exception : Type 0 where
  value_error type_error overflow_error index_error assertion_error : Exception
  key_error attribute_error audit_sink_error os_error yaml_error regex_error integrity_error :
      Exception
  policy_error : String → Exception

pub data Result {κ} (R : Type κ) : Type κ where
  err : Exception → Result R
  ok : R → Result R

infixl 5 ◌>>=◌
abbrev pub ◌>>=◌ {κ μ} : {R : Type κ} {S : Type μ} (m : Result R) (next : R → Result S) → Result S
err x >>= next = err x
ok value >>= next = next value

-- A sequence that returns has a first step that returns.
pub >>=-eq-ok {κ μ} :
    {R : Type κ} {S : Type μ} (first : Result R) (next : R → Result S) {end : S}
    → (first >>= next) ≡ ok end
    → (value : R) × (first ≡ ok value) × (next value ≡ ok end)
>>=-eq-ok (err x) next p = cc
>>=-eq-ok (ok value) next p = (value, refl, p)

ok_or {ℓ} : {A : Type ℓ} → A → Result A → A
ok_or a (ok b) = b
ok_or a (err x) = a

pub ok-injective {ℓ} : {A : Type ℓ} {a b : A} → ok a ≡ ok b → a ≡ b
unfolding ok_or
ok-injective {a} p = ap (ok_or a) p

-- A guarded step that returns has passed its guard.
pub guard-eq-ok {ℓ} :
    {A : Type ℓ} (b : Bool) (x : Exception) {a end : A}
    → (if b then err x else ok a) ≡ ok end
    → (b ≡ false) × (a ≡ end)
guard-eq-ok true x p = cc
guard-eq-ok false x p = (refl, ok-injective p)
