-- ===== src/Audit/Emitter/Logged.antt =====
-- The logs of the SQLite sink after a run of events.
use cloudmorph_tessera.Prelude.{
  ◌≡◌, refl, sym, ap, ◌∙◌, String, Option, some, List, [], ◌∷◌, ◌++◌, ◌==◌, string_eq,
  if◌then◌else◌, append_assoc, append-nil, Bool-cases, inl, inr,
}
use cloudmorph_tessera.Python.Float.{Float}
use cloudmorph_tessera.Python.Result.{Result, ok, err, ◌>>=◌, >>=-eq-ok, ok-injective}
use cloudmorph_tessera.Python.Value.{Value, Fields, str, get, get_or}
use cloudmorph_tessera.Audit.Verifier.Produced.{rows, is_tenant}
use cloudmorph_tessera.Audit.Sqlite.{Table, required, iter_events, store}
use cloudmorph_tessera.Audit.Sqlite.Table.{IsTable}
use cloudmorph_tessera.Audit.Sqlite.Stored.{store-IsTable}
use cloudmorph_tessera.Audit.Sqlite.Reads.{store-IsAppended}

module _ {F : Type 0} (bind : Value F → Option (Option String)) where
  -- the table after an event: as it was, if the sink raises
  unfoldable pub kept_or_stored : Fields F → Table F → Table F
  kept_or_stored event table = elim (store bind event table) [ err x ↦ table | ok stored ↦ stored ]

  -- the events that a run stores, none of which fails
  unfoldable pub store_all : List (Fields F) → Table F → Result (Table F)
  store_all [] table = ok table
  store_all (event ∷ events) table = store bind event table >>= λ stored. store_all events stored

module _ {F : Type 0} where
  -- Every event names its tenant by a text.
  abbrev pub AllNamed : List (Fields F) → Type 0
  AllNamed [] = Unit
  AllNamed (event ∷ events) =
      ((owner : String) × (get "tenantId" event ≡ some (str owner))) × AllNamed events

module _ {F : Type 0} ⦃fl : Float F⦄ (bind : Value F → Option (Option String)) where
  logged-named :
      (binds : (s : String) → bind (str s) ≡ some (some s)) (t owner : String) (event : Fields F)
      (scope : String)
      → get "tenantId" event ≡ some (str owner)
      → required bind (get_or "tenantId" (str "default") event) ≡ ok scope
      → (if scope == t then event ∷ [] else []) ≡ rows t (event ∷ [])
  unfolding get_or required
  logged-named binds t owner event scope named bound =
      let same : ok owner ≡ ok scope = cc (named, binds owner, bound) in
      rw (named, ok-injective same)
        (elim (Bool-cases (scope == t)) [ inl e ↦ rw e refl | inr e ↦ rw e refl ])

  rows-cons :
      (t : String) (event : Fields F) (events : List (Fields F))
      → rows t (event ∷ events) ≡ rows t (event ∷ []) ++ rows t events
  rows-cons t event events = elim (Bool-cases (is_tenant t (get "tenantId" event))) [
    | inl e ↦ rw e refl
    | inr e ↦ rw e refl
  ]

  -- A scope's log grows by the rows of its tenant, in the order of the calls.
  pub store_all-rows :
      (binds : (s : String) → bind (str s) ≡ some (some s)) (t : String) (events : List (Fields F))
      (table table' : Table F)
      → AllNamed events
      → IsTable table
      → store_all bind events table ≡ ok table'
      → iter_events (some t) table' ≡ iter_events (some t) table ++ rows t events
  unfolding store_all
  store_all-rows binds t [] table table' names h p =
      ap (iter_events (some t)) (sym (ok-injective p))
      ∙ sym (append-nil (iter_events (some t) table))
  store_all-rows binds t (event ∷ events) table table' ((owner, named), names) h p =
      let (mid, p1, q) = >>=-eq-ok (store bind event table) _ p in
      let (scope, added) = store-IsAppended bind event table mid h p1 in
      store_all-rows binds t events mid table' names (store-IsTable bind event table mid h p1) q
      ∙ ap (λ (l : List (Fields F)). l ++ rows t events)
          (added.logged t
            ∙ ap (λ (l : List (Fields F)). iter_events (some t) table ++ l)
                (logged-named binds t owner event scope named added.names))
      ∙ append_assoc (iter_events (some t) table) (rows t (event ∷ [])) (rows t events)
      ∙ ap (λ (l : List (Fields F)). iter_events (some t) table ++ l)
          (sym (rows-cons t event events))
