-- ===== src/Audit/Sqlite/Stored.antt =====
-- What a call of `SqliteSink.emit` that returns has done to the table.
use cloudmorph_tessera.Prelude.{
  ◌+◌, ◌≡◌, sym, ap, ◌∙◌, String, false, Option, some, [], ◌∷◌, ◌++◌, any, ◌==◌, string_eq,
  append-nil, Bool-cases, Option-cases, inl, inr, eq_iff,
}
use cloudmorph_tessera.Python.Result.{ok, >>=-eq-ok, ok-injective}
use cloudmorph_tessera.Python.Value.{Value, Fields, str, get, get_or}
use cloudmorph_tessera.Audit.Sqlite.{
  Row, Table, in_scope, max_seq, clashes, insert, nullable, required, row_for, store,
}
use cloudmorph_tessera.Audit.Sqlite.Table.{
  IsTable, IsDistinct-append, IsConsecutive-append, in_scope-append, insert_inv, next_seq,
}

module _ {F : Type 0} (bind : Value F → Option (Option String)) where
  -- what a row takes from its event
  pub record IsRowOf (event : Fields F) (scope : String) (rows : Table F) (new : Row F)
      : Type 0 where
    pub names : required bind (get_or "tenantId" (str "default") event) ≡ ok scope
    pub scoped : new.scope ≡ scope
    pub numbered : new.seq ≡ max_seq (in_scope scope rows) + 1
    pub holds : new.payload ≡ event
    pub hashed :
        (hash : Value F) × (get "eventHash" event ≡ some hash)
        × (required bind hash ≡ ok new.event_hash)
    pub identified :
        (id : Value F) × (get "eventId" event ≡ some id) × (nullable bind id ≡ ok new.event_id)

  row_for_inv :
      (id hash : Value F) (event : Fields F) (rows : Table F) (new : Row F)
      → get "eventId" event ≡ some id
      → get "eventHash" event ≡ some hash
      → row_for bind id hash event rows ≡ ok new
      → (scope : String) × IsRowOf event scope rows new
  unfolding row_for
  row_for_inv id hash event rows new gi gh p =
      let (scope, p0, q0) =
        >>=-eq-ok (required bind (get_or "tenantId" (str "default") event)) _ p in
      let (event_id, p1, q1) = >>=-eq-ok (nullable bind id) _ q0 in
      let (event_type, p2, q2) =
        >>=-eq-ok (required bind (get_or "eventType" (str "unknown") event)) _ q1 in
      let (occurred, p3, q3) =
        >>=-eq-ok (required bind (get_or "occurredAt" (str "") event)) _ q2 in
      let (prev, p4, q4) = >>=-eq-ok (required bind (get_or "prevEventHash" (str "") event)) _ q3 in
      let (event_hash, p5, q5) = >>=-eq-ok (required bind hash) _ q4 in
      let (version, p6, q6) =
        >>=-eq-ok (required bind (get_or "schemaVersion" (str "v0.1") event)) _ q5 in
      let made = ok-injective q6 in
      (
        scope,
        record {
          names = p0;
          scoped = ap (λ (r : Row F). r.scope) (sym made);
          numbered = ap (λ (r : Row F). r.seq) (sym made);
          holds = ap (λ (r : Row F). r.payload) (sym made);
          hashed = (hash, gh, p5 ∙ ap (λ (r : Row F). ok r.event_hash) made);
          identified = (id, gi, p1 ∙ ap (λ (r : Row F). ok r.event_id) made);
        },
      )

  -- what a call that returns has added
  pub record IsStored (event : Fields F) (rows rows' : Table F) : Type 0 where
    pub scope : String
    pub new : Row F
    pub row : IsRowOf event scope rows new
    pub fresh : any (λ r. clashes r new) rows ≡ false
    pub appended : rows' ≡ rows ++ (new ∷ [])

  pub store-IsStored :
      (event : Fields F) (rows rows' : Table F)
      → store bind event rows ≡ ok rows'
      → IsStored event rows rows'
  unfolding store
  store-IsStored event rows rows' p = elim (Option-cases (get "eventId" event)) [
    | inl e ↦ absurd (cc (e))
    | inr (id, gi) ↦ elim (Option-cases (get "eventHash" event)) [
      | inl e ↦ absurd (cc (e, gi))
      | inr (hash, gh) ↦
          let (new, pr, q) =
            >>=-eq-ok (row_for bind id hash event rows) (λ row. insert row rows) {end = rows'}
              (cc) in
          let (scope, row) = row_for_inv id hash event rows new gi gh pr in
          let (fresh, made) = insert_inv new rows rows' q in
          record { scope = scope; new = new; row = row; fresh = fresh; appended = sym made }
    ]
  ]

  IsTable-append :
      (event : Fields F) (rows rows' : Table F)
      → IsTable rows
      → IsStored event rows rows'
      → IsTable rows'
  IsTable-append event rows rows' t s = rw s.appended (record {
    distinct = IsDistinct-append rows s.new t.distinct s.fresh;
    consecutive = λ scope.
        rw (in_scope-append scope rows s.new) (elim (Bool-cases (s.new.scope == scope)) [
          | inl e ↦ rw e (
              IsConsecutive-append 0 (in_scope scope rows) s.new (t.consecutive scope) (
                next_seq scope s.scope rows (t.consecutive scope) s.new s.row.numbered
                  (sym s.row.scoped ∙ (eq_iff s.new.scope scope).0 e)))
          | inr e ↦ rw (e, append-nil (in_scope scope rows)) (t.consecutive scope)
        ]);
  })

  pub store-IsTable :
      (event : Fields F) (rows rows' : Table F)
      → IsTable rows
      → store bind event rows ≡ ok rows'
      → IsTable rows'
  store-IsTable event rows rows' t p =
      IsTable-append event rows rows' t (store-IsStored event rows rows' p)
