-- ===== src/Tests/Trails.antt =====
-- The emitter and the SQLite sink at a run of three events of two tenants, beside a sink that
-- always raises.
use Prim.Native.Nat.{◌%◌, ◌*◌, ◌/◌, zero, suc}
use cloudmorph_tessera.Prelude.{
  ℕ, ◌+◌, ◌-◌, ◌≡◌, refl, String, Bool, true, false, Option, none, some, List, [], ◌∷◌, length,
  drop, nat_beq, Bool-cases, inl, inr, eq_iff, if◌then◌else◌, ◌==◌, string_eq,
}
use cloudmorph_tessera.Python.Result.{Result, Exception, ok, err, type_error, audit_sink_error}
use cloudmorph_tessera.Python.Value.{Value, Fields, null, str, end, field}
use cloudmorph_tessera.Python.Json.Order.{str_lt}
use cloudmorph_tessera.Audit.Chain.{new_chain}
use cloudmorph_tessera.Audit.Verifier.{WalkResult, verify_chain}
use cloudmorph_tessera.Audit.Verifier.Produced.{rows}
use cloudmorph_tessera.Audit.Sqlite.{Table, iter_events, iter_recent, store}
use cloudmorph_tessera.Audit.Sqlite.Table.{IsTable}
use cloudmorph_tessera.Audit.Sqlite.Stored.{store-IsTable}
use cloudmorph_tessera.Audit.Sqlite.Reads.{IsAppended, store-IsAppended, iter_recent-drop}
use cloudmorph_tessera.Audit.Emitter.{Sink, AuditEmitter, EmitCall, deliver, emit_internal}
use cloudmorph_tessera.Audit.Emitter.Isolated.{deliver_isolated}
use cloudmorph_tessera.Audit.Emitter.Logged.{kept_or_stored, store_all}
use cloudmorph_tessera.Audit.Emitter.Stored.{emit_all}
use cloudmorph_tessera.Audit.Emitter.Trail.{HasSqlite, empty-IsTable, emit_all_verifies}
use cloudmorph_tessera.Tests.Fixtures.{fl}

abbrev mixed : ℕ → List ℕ → ℕ
mixed n [] = n
mixed n (b ∷ bytes) = mixed ((n * 31 + b) % 65521) bytes

abbrev bits : ℕ → ℕ → String
bits zero n = ""
bits (suc fuel) n = String.◌∷◌ (if nat_beq (n % 2) 0 then "0" else "1") (bits fuel (n / 2))

-- a hash with few collisions
abbrev checksum : List ℕ → String
checksum bytes = String.◌∷◌ "h" (bits 16 (mixed 7 bytes))

checksum_nonempty : (bytes : List ℕ) → (checksum bytes == "") ≡ false
checksum_nonempty bytes = elim (Bool-cases (checksum bytes == "")) [
  | inl e ↦ absurd (cc ((eq_iff (checksum bytes) "").0 e))
  | inr e ↦ e
]

-- texts and NULL
abbrev bind : Value ℕ → Option (Option String)
bind (str s) = some (some s)
bind null = some none
bind _ = none

bind_text : (s : String) → bind (str s) ≡ some (some s)
bind_text s = refl

record Stores : Type 0 where
  pub table : Table ℕ
  pub failures : List String

abbrev no_rows : Stores
no_rows = record { table = []; failures = [] }

abbrev sqlite : Sink ℕ Stores
sqlite = record {
  name = "sqlite";
  emit = λ event w.
      (none, record { table = kept_or_stored bind event w.table; failures = w.failures });
  close = λ w. w;
}

abbrev offline : Sink ℕ Stores
offline = record { name = "offline"; emit = λ event w. (some type_error, w); close = λ w. w }

abbrev noted : String → Exception → Stores → Stores
noted name x w = record { table = w.table; failures = name ∷ w.failures }

abbrev emitter : AuditEmitter ℕ Stores
emitter = record {
  tenant_id = "acme";
  sinks = offline ∷ sqlite ∷ [];
  hash_chain = new_chain;
  on_sink_failure = some noted;
}

emitter-HasSqlite : HasSqlite bind (λ (w : Stores). w.table) emitter
emitter-HasSqlite = record {
  before = offline ∷ [];
  sink = sqlite;
  after = [];
  fan_out = refl;
  before_spare = (λ event w. refl, tt);
  after_spare = tt;
  report_spares = λ name x w. refl;
  stores = λ event w. refl;
}

abbrev call : String → Option String → EmitCall ℕ
call id tenant_id = record {
  event_id = id;
  event_type = "decision";
  payload = none;
  session_id = some "s";
  actor_id = none;
  tenant_id = tenant_id;
  pricing_snapshot_id = none;
}

abbrev calls : List (EmitCall ℕ × String)
calls = (call "1" none, "t1") ∷ (call "2" (some "other"), "t2") ∷ (call "3" (some ""), "t3") ∷ []

abbrev value : {A : Type 0} → A → Result A → A
value a (ok x) = x
value a (err x) = a

abbrev ran : List (Fields ℕ) × AuditEmitter ℕ Stores × Stores
ran = value ([], emitter, no_rows) (emit_all checksum emitter calls no_rows)

abbrev table : Table ℕ
table = value [] (store_all bind ran.0 [])

abbrev is_ok : {A : Type 0} → Result A → Bool
is_ok (ok x) = true
is_ok (err x) = false

ok_value : {A : Type 0} (a : A) (r : Result A) → is_ok r ≡ true → r ≡ ok (value a r)
ok_value a (ok x) p = refl
ok_value a (err x) p = cc

run_returns : emit_all checksum emitter calls no_rows ≡ ok ran
unfolding emit_all emit_internal str_lt
run_returns = ok_value ([], emitter, no_rows) (emit_all checksum emitter calls no_rows) refl

all_stored : store_all bind ran.0 [] ≡ ok table
unfolding emit_all emit_internal store_all store str_lt
all_stored = ok_value [] (store_all bind ran.0 []) refl

emit_all_verifies_example :
    (ran.2.table ≡ table)
    × (r : WalkResult ℕ) × (verify_chain checksum
          (λ scope. iter_events (some scope) ran.2.table)
          "acme"
        ≡ ok ("acme", r))
    × (r.is_ok ≡ true)
    × (r.events_checked ≡ length (rows "acme" ran.0))
emit_all_verifies_example =
    emit_all_verifies checksum bind (λ (w : Stores). w.table) checksum_nonempty bind_text emitter
      ran.1 calls no_rows ran.2 ran.0 table "acme" emitter-HasSqlite refl run_returns all_stored

two_of_acme : length (rows "acme" ran.0) ≡ 2
unfolding emit_all emit_internal str_lt
two_of_acme = refl

abbrev row_event : String → String → String → Fields ℕ
row_event tenant id hash =
    field "tenantId" (str tenant) (field "eventId" (str id) (field "eventHash" (str hash) end))

abbrev one_row : Table ℕ
one_row = value [] (store bind (row_event "a" "1" "x") [])

abbrev two_rows : Table ℕ
two_rows = value [] (store bind (row_event "a" "2" "y") one_row)

one_returns : store bind (row_event "a" "1" "x") [] ≡ ok one_row
unfolding store
one_returns = refl

two_return : store bind (row_event "a" "2" "y") one_row ≡ ok two_rows
unfolding store
two_return = refl

-- a second row of one id
same_id_raises : store bind (row_event "b" "1" "y") one_row ≡ err audit_sink_error
unfolding store
same_id_raises = refl

one_row-IsTable : IsTable one_row
one_row-IsTable = store-IsTable bind (row_event "a" "1" "x") [] one_row empty-IsTable one_returns

two_rows-IsTable : IsTable two_rows
two_rows-IsTable =
    store-IsTable bind (row_event "a" "2" "y") one_row two_rows one_row-IsTable two_return

store-IsAppended_example :
    (scope : String) × IsAppended bind (row_event "a" "2" "y") scope one_row two_rows
store-IsAppended_example =
    store-IsAppended bind (row_event "a" "2" "y") one_row two_rows one_row-IsTable two_return

iter_recent-drop_example :
    iter_recent (some "a") 1 two_rows
    ≡ drop (length (iter_events (some "a") two_rows) - 1) (iter_events (some "a") two_rows)
iter_recent-drop_example = iter_recent-drop "a" 1 two_rows two_rows-IsTable

deliver_isolated_example :
    (deliver (some noted) (offline ∷ sqlite ∷ []) (row_event "a" "1" "x") no_rows).table
    ≡ kept_or_stored bind (row_event "a" "1" "x") []
deliver_isolated_example =
    deliver_isolated (λ (w : Stores). w.table) (kept_or_stored bind) (some noted) (offline ∷ [])
      sqlite [] (row_event "a" "1" "x") no_rows (λ name x w. refl) (λ event w. refl, tt) tt
      (λ event w. refl)
