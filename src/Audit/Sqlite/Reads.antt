-- ===== src/Audit/Sqlite/Reads.antt =====
-- The queries of `SqliteSink` on the table that `emit` fills: a scope is a log to which events are
-- appended.
use cloudmorph_tessera.Prelude.{
  ℕ, suc, zero, ◌-◌, ◌≡◌, refl, sym, ap, ◌∙◌, String, false, Option, some, List, [], ◌∷◌, ◌++◌, map,
  length, take, drop, reverse, ◌==◌, string_eq, if◌then◌else◌, arith, Bool-cases, inl, inr,
  reverse-cons, map-append, append-nil, leb, reverse-reverse, length-append, ap₂, beq_refl,
  reverse-append,
}
use cloudmorph_tessera.Python.Result.{ok}
use cloudmorph_tessera.Python.Value.{Value, Fields, str, get, get_or}
use cloudmorph_tessera.Audit.Sqlite.{
  Row, Table, in_scope, payloads, first_hash, head_hash, iter_events, iter_recent, required, store,
}
use cloudmorph_tessera.Audit.Sqlite.Table.{
  IsTable, order_by-IsConsecutive, order_by-reverse, in_scope-append,
}
use cloudmorph_tessera.Audit.Sqlite.Stored.{store-IsStored, store-IsTable}

module _ {ℓ} {A : Type ℓ} where
  take-append_one :
      (n : ℕ) (xs : List A) (x : A)
      → take n (xs ++ (x ∷ [])) ≡ (if leb n (length xs) then take n xs else xs ++ (x ∷ []))
  take-append_one zero xs x = ground arith
  take-append_one (suc zero) [] x = ground arith
  take-append_one (suc (suc n)) [] x = ground arith
  take-append_one (suc n) (y ∷ xs) x = ground (arith, take-append_one n xs x)

  length-reverse : (xs : List A) → length (reverse xs) ≡ length xs
  length-reverse [] = refl
  length-reverse (x ∷ xs) =
      rw (reverse-cons x xs) (omega (arith, length-append (reverse xs) (x ∷ []), length-reverse xs))

  drop-nil : (n : ℕ) → drop {A = A} n [] ≡ []
  drop-nil zero = refl
  drop-nil (suc n) = refl

  -- The first of the reversed are the last, reversed.
  take-reverse : (n : ℕ) (xs : List A) → take n (reverse xs) ≡ reverse (drop (length xs - n) xs)
  take-reverse zero [] = refl
  take-reverse (suc n) [] = ap reverse (sym (drop-nil (0 - suc n)))
  take-reverse n (x ∷ xs) = elim (Bool-cases (leb n (length xs))) [
    | inl e ↦
        let more : suc (length xs) - n ≡ suc (length xs - n) = ground (arith, e) in
        rw (reverse-cons x xs, take-append_one n (reverse xs) x, length-reverse xs, e, more)
          (take-reverse n xs)
    | inr e ↦
        let all_of : suc (length xs) - n ≡ 0 = ground (arith, e) in
        rw (reverse-cons x xs, take-append_one n (reverse xs) x, length-reverse xs, e, all_of)
          (sym (reverse-cons x xs))
  ]

module _ {F : Type 0} where
  iter_events-in_scope :
      (scope : String) (rows : Table F)
      → IsTable rows
      → iter_events (some scope) rows ≡ payloads (in_scope scope rows)
  unfolding iter_events
  iter_events-in_scope scope rows t =
      ap payloads (order_by-IsConsecutive 0 (in_scope scope rows) (t.consecutive scope))

  head_hash-in_scope :
      (scope : String) (rows : Table F)
      → IsTable rows
      → head_hash scope rows ≡ first_hash (reverse (in_scope scope rows))
  unfolding head_hash
  head_hash-in_scope scope rows t =
      ap first_hash (order_by-reverse 0 (in_scope scope rows) (t.consecutive scope))

  map-drop :
      {A : Type 0} (f : Row F → A) (n : ℕ) (rows : Table F)
      → map f (drop n rows) ≡ drop n (map f rows)
  map-drop f zero rows = refl
  map-drop f (suc n) [] = refl
  map-drop f (suc n) (r ∷ rows) = map-drop f n rows

  length-payloads : (rows : Table F) → length (payloads rows) ≡ length rows
  length-payloads [] = refl
  length-payloads (r ∷ rows) = ap suc (length-payloads rows)

  -- In a table that keeps the constraints, the recent events of a scope are the last ones of its
  -- log, oldest first.
  pub iter_recent-drop :
      (scope : String) (limit : ℕ) (rows : Table F)
      → IsTable rows
      → iter_recent (some scope) limit rows
        ≡ drop (length (iter_events (some scope) rows) - limit) (iter_events (some scope) rows)
  unfolding iter_recent
  iter_recent-drop scope limit rows t =
      rw
        (
          order_by-reverse 0 (in_scope scope rows) (t.consecutive scope),
          take-reverse limit (in_scope scope rows),
          reverse-reverse (drop (length (in_scope scope rows) - limit) (in_scope scope rows)),
          iter_events-in_scope scope rows t,
          length-payloads (in_scope scope rows),
        )
        (map-drop (λ r. r.payload) (length (in_scope scope rows) - limit) (in_scope scope rows))

module _ {F : Type 0} (bind : Value F → Option (Option String)) where
  -- what a reader of one scope sees of a new event
  pub record IsAppended (event : Fields F) (scope : String) (rows rows' : Table F) : Type 0 where
    pub names : required bind (get_or "tenantId" (str "default") event) ≡ ok scope
    pub logged :
        (t : String)
        → iter_events (some t) rows'
          ≡ iter_events (some t) rows ++ (if scope == t then event ∷ [] else [])
    pub hash : Value F
    pub carries : get "eventHash" event ≡ some hash
    pub tip : required bind hash ≡ ok (head_hash scope rows')
    pub others : (t : String) → (scope == t) ≡ false → head_hash t rows' ≡ head_hash t rows

  payloads-append :
      (t : String) (event : Fields F) (rows : Table F) (new : Row F)
      → new.payload ≡ event
      → payloads (in_scope t (rows ++ (new ∷ [])))
        ≡ payloads (in_scope t rows) ++ (if new.scope == t then event ∷ [] else [])
  payloads-append t event rows new p =
      rw
        (
          in_scope-append t rows new,
          map-append (λ (r : Row F). r.payload) (in_scope t rows)
              (if new.scope == t then new ∷ [] else []),
        )
        (elim (Bool-cases (new.scope == t)) [ inl e ↦ rw (e, p) refl | inr e ↦ rw e refl ])

  first_hash-append :
      (t : String) (rows : Table F) (new : Row F)
      → first_hash (reverse (in_scope t (rows ++ (new ∷ []))))
        ≡ (if new.scope == t then new.event_hash else first_hash (reverse (in_scope t rows)))
  first_hash-append t rows new =
      rw (in_scope-append t rows new) (elim (Bool-cases (new.scope == t)) [
        | inl e ↦ rw (e, reverse-append (in_scope t rows) (new ∷ [])) refl
        | inr e ↦ rw (e, append-nil (in_scope t rows)) refl
      ])

  -- On a table that keeps the constraints, an event that is stored goes to the end of the log of
  -- the scope that its tenant names, and no other log changes; its hash is the head of that scope,
  -- and the heads of the others stay.
  pub store-IsAppended :
      (event : Fields F) (rows rows' : Table F)
      → IsTable rows
      → store bind event rows ≡ ok rows'
      → (scope : String) × IsAppended event scope rows rows'
  store-IsAppended event rows rows' t p =
      let s = store-IsStored bind event rows rows' p in
      let t' = store-IsTable bind event rows rows' t p in
      let (hash, carries, bound) = s.row.hashed in
      let at : (u : String)
          → head_hash u rows' ≡ (if s.scope == u then s.new.event_hash else head_hash u rows) =
        λ u.
          head_hash-in_scope u rows' t'
          ∙ ap (λ (r : Table F). first_hash (reverse (in_scope u r))) s.appended
          ∙ first_hash-append u rows s.new
          ∙ ap₂ (λ (v : String) (h : String). if v == u then s.new.event_hash else h) s.row.scoped
              (sym (head_hash-in_scope u rows t)) in
      (
        s.scope,
        record {
          names = s.row.names;
          logged = λ u.
              iter_events-in_scope u rows' t'
              ∙ ap (λ (r : Table F). payloads (in_scope u r)) s.appended
              ∙ payloads-append u event rows s.new s.row.holds
              ∙ ap₂ (λ (l : List (Fields F)) (v : String). l ++ (if v == u then event ∷ [] else []))
                  (sym (iter_events-in_scope u rows t)) s.row.scoped;
          hash = hash;
          carries = carries;
          tip = bound ∙ ap ok (sym (at s.scope ∙ rw (beq_refl s.scope) refl));
          others = λ u ne. at u ∙ rw ne refl;
        },
      )
