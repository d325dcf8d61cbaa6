-- ===== src/Audit/Sqlite.antt =====
-- tessera/audit/sinks/sqlite.py: `SqliteSink`, its table as the rows in the order in which they were
-- inserted. A transaction is one step. `json.loads` gives back the event that `json.dumps` has
-- written, so a row holds the event. The files and their permissions are I/O.
pub mod Table
pub mod Stored
pub mod Reads
use cloudmorph_tessera.Prelude.{
  ℕ, ◌+◌, String, Bool, true, false, ◌&&◌, ◌||◌, Option, none, some, List, [], ◌∷◌, ◌++◌, map, keep,
  reverse, any, take, ltb, nat_beq, ◌==◌, string_eq, if◌then◌else◌,
}
use cloudmorph_tessera.Python.Result.{Result, ok, err, key_error, audit_sink_error, ◌>>=◌}
use cloudmorph_tessera.Python.Value.{Value, Fields, str, get, get_or}
use cloudmorph_tessera.Python.Json.Order.{str_lt}

-- a row of `audit_events`; a primary key of texts may be NULL
pub record Row (F : Type 0) : Type 0 where
  pub event_id : Option String
  pub scope : String
  pub seq : ℕ
  pub event_type : String
  pub occurred_at : String
  pub payload : Fields F
  pub prev_event_hash : String
  pub event_hash : String
  pub schema_version : String

abbrev pub Table : Type 0 → Type 0
Table F = List (Row F)

-- `k = NULL` holds for no key
abbrev pub same_id : Option String → Option String → Bool
same_id (some a) (some b) = a == b
same_id (some a) none = false
same_id none _ = false

module _ {F : Type 0} where
  -- `WHERE scope = ?`
  abbrev pub in_scope : String → Table F → Table F
  in_scope scope = keep (λ r. r.scope == scope)

  -- `COALESCE(MAX(seq), 0)`
  unfoldable pub max_seq : Table F → ℕ
  max_seq [] = 0
  max_seq (r ∷ rows) = if ltb (max_seq rows) r.seq then r.seq else max_seq rows

  -- `PRIMARY KEY`, `UNIQUE` and the unique index
  abbrev pub clashes : Row F → Row F → Bool
  clashes r new =
      same_id r.event_id new.event_id
      || (r.event_hash == new.event_hash || (r.scope == new.scope && nat_beq r.seq new.seq))

  -- `INSERT`
  unfoldable pub insert : Row F → Table F → Result (Table F)
  insert new rows =
      if any (λ r. clashes r new) rows then err audit_sink_error else ok (rows ++ (new ∷ []))

  -- `ORDER BY`
  unfoldable pub insert_by : (Row F → Row F → Bool) → Row F → Table F → Table F
  insert_by precedes r [] = r ∷ []
  insert_by precedes r (s ∷ rows) =
      let rest = insert_by precedes r rows in if precedes r s then r ∷ s ∷ rows else s ∷ rest

  unfoldable pub order_by : (Row F → Row F → Bool) → Table F → Table F
  unfolding insert_by
  order_by precedes [] = []
  order_by precedes (r ∷ rows) = insert_by precedes r (order_by precedes rows)

  abbrev pub by_seq : Row F → Row F → Bool
  by_seq r s = ltb r.seq s.seq

  abbrev pub by_seq_desc : Row F → Row F → Bool
  by_seq_desc r s = ltb s.seq r.seq

  -- `ORDER BY scope, seq` and `ORDER BY scope, seq DESC`
  abbrev pub by_scope : (Row F → Row F → Bool) → Row F → Row F → Bool
  by_scope precedes r s =
      if str_lt r.scope s.scope
      then true
      else if str_lt s.scope r.scope
      then false
      else precedes r s

  -- the first of the rows, if there is one
  abbrev pub first_hash : Table F → String
  first_hash [] = ""
  first_hash (r ∷ rows) = r.event_hash

  unfoldable pub head_hash : String → Table F → String
  unfolding order_by
  head_hash scope rows = first_hash (order_by by_seq_desc (in_scope scope rows))

  abbrev pub payloads : Table F → List (Fields F)
  payloads = map (λ r. r.payload)

  unfoldable pub iter_events : Option String → Table F → List (Fields F)
  unfolding order_by
  iter_events none rows = payloads (order_by (by_scope by_seq) rows)
  iter_events (some scope) rows = payloads (order_by by_seq (in_scope scope rows))

  unfoldable pub fetch_by_id : String → Table F → Option (Fields F)
  fetch_by_id event_id [] = none
  fetch_by_id event_id (r ∷ rows) =
      if same_id r.event_id (some event_id) then some r.payload else fetch_by_id event_id rows

  unfoldable pub iter_recent : Option String → ℕ → Table F → List (Fields F)
  unfolding order_by
  iter_recent none limit rows =
      payloads (reverse (take limit (order_by (by_scope by_seq_desc) rows)))
  iter_recent (some scope) limit rows =
      payloads (reverse (take limit (order_by by_seq_desc (in_scope scope rows))))

  -- sqlite3: what a column of texts holds once the value is bound to it, the outer `none` where the
  -- value cannot be bound, the inner one for NULL
  module _ (bind : Value F → Option (Option String)) where
    unfoldable pub nullable : Value F → Result (Option String)
    nullable v = elim (bind v) [ none ↦ err audit_sink_error | some column ↦ ok column ]

    -- `NOT NULL`
    unfoldable pub required : Value F → Result String
    required v = elim (bind v) [
      | none ↦ err audit_sink_error
      | some none ↦ err audit_sink_error
      | some (some s) ↦ ok s
    ]

    -- the row of an event, with the next number of its scope
    unfoldable pub row_for : Value F → Value F → Fields F → Table F → Result (Row F)
    unfolding nullable required max_seq get_or
    row_for event_id event_hash event rows = do
      scope ← required (get_or "tenantId" (str "default") event)
      id ← nullable event_id
      event_type ← required (get_or "eventType" (str "unknown") event)
      occurred_at ← required (get_or "occurredAt" (str "") event)
      prev_event_hash ← required (get_or "prevEventHash" (str "") event)
      hash ← required event_hash
      schema_version ← required (get_or "schemaVersion" (str "v0.1") event)
      ok (record {
        event_id = id;
        scope = scope;
        seq = max_seq (in_scope scope rows) + 1;
        event_type = event_type;
        occurred_at = occurred_at;
        payload = event;
        prev_event_hash = prev_event_hash;
        event_hash = hash;
        schema_version = schema_version;
      })

    -- `SqliteSink.emit`
    unfoldable pub store : Fields F → Table F → Result (Table F)
    unfolding row_for insert get
    store event rows = elim (get "eventId" event) [
      | none ↦ err key_error
      | some event_id ↦ elim (get "eventHash" event) [
        | none ↦ err key_error
        | some event_hash ↦ row_for event_id event_hash event rows >>= λ row. insert row rows
      ]
    ]
