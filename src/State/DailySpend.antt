-- ===== src/State/DailySpend.antt =====
-- tessera/state/daily_spend.py: `DailySpendState`. The table is a dict from its primary key to the
-- total; the lock makes each method one step. A day is the text that `_today_str` gives, of the event or
-- of the clock.
use cloudmorph_tessera.Prelude.{
  ◌≡◌, refl, ap, ◌↔◌, String, Bool, true, ◌&&◌, Option, none, some, List, [], ◌∷◌, ◌==◌, string_eq,
  Eq, eq_iff, arith, Bool-cases, inl, inr, if◌then◌else◌, ◌∙◌,
}
use cloudmorph_tessera.Dict
use cloudmorph_tessera.Dict.{Dict, get-put}
use cloudmorph_tessera.Python.Float.{Float}
use cloudmorph_tessera.Python.Result.{Result, ok, err, integrity_error}

-- the primary key
pub record SpendKey : Type 0 where
  pub scope : String
  pub day : String

abbrev pub spend_beq : SpendKey → SpendKey → Bool
spend_beq a b = a.scope == b.scope && a.day == b.day

pub spend_beq_iff : (a b : SpendKey) → (spend_beq a b ≡ true) ↔ (a ≡ b)
spend_beq_iff a b = ground (arith, eq_iff a.scope b.scope, eq_iff a.day b.day)

instance abbrev pub spend_eq : Eq SpendKey
spend_eq = record { beq_iff = spend_beq_iff; beq = spend_beq }

pub record DailySpendState (F : Type 0) : Type 0 where
  pub daily_spend : Dict SpendKey F

-- the primary key of a row
abbrev pub row_of : String → String → SpendKey
row_of scope day = record { scope = scope; day = day }

module _ {F : Type 0} ⦃fl : Float F⦄ where
  -- the total after a spend: `cumulative_usd + excluded.cumulative_usd`, or a new row
  unfoldable pub upserted : F → Option F → F
  upserted usd none = usd
  upserted usd (some total) = fl.add total usd

  -- not NaN, which sqlite3 stores as NULL
  abbrev pub is_number : F → Bool
  is_number x = fl.eq x x

  -- NULL violates the constraint of the column: an IntegrityError, and the row is as it was.
  unfoldable pub add_spend :
      String → F → String → DailySpendState F → Result {0} Unit × DailySpendState F
  add_spend scope usd day t =
      let key = row_of scope day in
      let total = upserted usd (Dict.get key t.daily_spend) in
      if is_number usd && is_number total
      then (ok tt, record { daily_spend = Dict.put key total t.daily_spend })
      else (err integrity_error, t)

  unfoldable pub get_today_spend : String → String → DailySpendState F → F
  get_today_spend scope today t = elim (Dict.get (row_of scope today) t.daily_spend) [
    | none ↦ fl.nought
    | some total ↦ total
  ]

  -- the spends of one scope on one day, in the order in which they were added
  abbrev pub spends_of : String → String → List (String × F × String) → List F
  spends_of scope today [] = []
  spends_of scope today ((s, usd, day) ∷ spends) =
      if s == scope && day == today
      then usd ∷ spends_of scope today spends
      else spends_of scope today spends

  abbrev pub add_all : List (String × F × String) → DailySpendState F → DailySpendState F
  add_all [] t = t
  add_all ((scope, usd, day) ∷ spends) t = add_all spends (add_spend scope usd day t).1

  -- the spends added to an earlier total, from the left; a NaN, or one that makes the total a NaN,
  -- does not count
  abbrev pub total_of : List F → Option F → Option F
  total_of [] total = total
  total_of (usd ∷ spends) none =
      if fl.eq usd usd then total_of spends (some usd) else total_of spends none
  total_of (usd ∷ spends) (some total) =
      if fl.eq usd usd && fl.eq (fl.add total usd) (fl.add total usd)
      then total_of spends (some (fl.add total usd))
      else total_of spends (some total)

  accepted : F → Option F → Option F
  accepted usd total =
      if is_number usd && is_number (upserted usd total) then some (upserted usd total) else total

  total_of-accepted :
      (usd : F) (spends : List F) (total : Option F)
      → total_of spends (accepted usd total) ≡ total_of (usd ∷ spends) total
  unfolding accepted upserted
  total_of-accepted usd spends none = elim (Bool-cases (fl.eq usd usd)) [
    | inl number ↦ rw number refl
    | inr nan ↦ rw nan refl
  ]
  total_of-accepted usd spends (some total) =
      elim (Bool-cases (fl.eq usd usd && fl.eq (fl.add total usd) (fl.add total usd))) [
        | inl number ↦ rw number refl
        | inr nan ↦ rw nan refl
      ]

  get-add_spend :
      (scope today s day : String) (usd : F) (t : DailySpendState F)
      → Dict.get (row_of scope today) (add_spend s usd day t).1.daily_spend ≡ (
          if s == scope && day == today
          then accepted usd (Dict.get (row_of s day) t.daily_spend)
          else Dict.get (row_of scope today) t.daily_spend)
  unfolding add_spend accepted
  get-add_spend scope today s day usd t = ground (
    arith,
    spend_beq_iff (row_of s day) (row_of scope today),
    get-put (row_of s day) (row_of scope today)
        (upserted usd (Dict.get (row_of s day) t.daily_spend)) t.daily_spend,
  )

  get-add_all :
      (scope today : String) (spends : List (String × F × String)) (t : DailySpendState F)
      → Dict.get (row_of scope today) (add_all spends t).daily_spend
        ≡ total_of (spends_of scope today spends) (Dict.get (row_of scope today) t.daily_spend)
  get-add_all scope today [] t = refl
  get-add_all scope today ((s, usd, day) ∷ spends) t =
      elim (Bool-cases (s == scope && day == today)) [
        | inl hit ↦ rw hit (
            get-add_all scope today spends (add_spend s usd day t).1
            ∙ ap (total_of (spends_of scope today spends)) (
                get-add_spend scope today s day usd t
                ∙ rw hit (
                    ap (λ k. accepted usd (Dict.get k t.daily_spend))
                      ((spend_beq_iff (row_of s day) (row_of scope today)).0 hit)))
            ∙ total_of-accepted usd (spends_of scope today spends) _)
        | inr miss ↦ rw miss (
            get-add_all scope today spends (add_spend s usd day t).1
            ∙ ap (total_of (spends_of scope today spends))
                (get-add_spend scope today s day usd t ∙ rw miss refl))
      ]

  -- the read of a row that may be missing
  abbrev pub spend_or_nought : Option F → F
  spend_or_nought none = fl.nought
  spend_or_nought (some total) = total

  -- After any sequence of spends the spend of a scope today is the earlier total with the spends of that
  -- scope and that day added in their order: those of other scopes and other days do not count, nor
  -- does a spend that is NaN or makes the total NaN, which is refused.
  pub get_today_spend-add_all :
      (scope today : String) (spends : List (String × F × String)) (t : DailySpendState F)
      → get_today_spend scope today (add_all spends t)
        ≡ spend_or_nought
            (total_of (spends_of scope today spends) (Dict.get (row_of scope today) t.daily_spend))
  unfolding get_today_spend
  get_today_spend-add_all scope today spends t =
      read (Dict.get (row_of scope today) (add_all spends t).daily_spend)
      ∙ ap spend_or_nought (get-add_all scope today spends t)
    where
      read : (o : Option F) → elim o [ none ↦ fl.nought | some total ↦ total ] ≡ spend_or_nought o
      read none = refl
      read (some total) = refl
