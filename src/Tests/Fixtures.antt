-- ===== src/Tests/Fixtures.antt =====
-- A small instance of the parameters: whole numbers in place of floats, a hash of two values, and
-- an outside world that knows nothing.
use Prim.Native.Nat.{◌*◌}
use cloudmorph_tessera.Prelude.{
  ℕ, ◌+◌, ◌-◌, ◌%◌, ◌≡◌, refl, String, Bool, true, false, Option, none, some, List, [], length, ltb,
  leb, nat_beq, ℤ, pos, negsuc, ◌==◌, string_eq,
}
use cloudmorph_tessera.Python.Float.{Float}
use cloudmorph_tessera.Python.Json.{decimal}
use cloudmorph_tessera.Python.Value.{Fields, str, int, end, field}
use cloudmorph_tessera.Policy.Eval.{Host, Context, World, absent}
use cloudmorph_tessera.Policy.Schema.{Policy, Conditions, Action}

abbrev whole_of : ℤ → Option ℕ
whole_of (pos n) = some n
whole_of (negsuc n) = none

abbrev is_int : ℕ → ℤ → Bool
is_int x (pos n) = nat_beq x n
is_int x (negsuc n) = false

abbrev exceeds : ℕ → ℤ → Bool
exceeds x (pos n) = ltb n x
exceeds x (negsuc n) = true

instance abbrev pub fl : Float ℕ
fl = record {
  nought = 0;
  add = λ x y. x + y;
  sub = λ x y. x - y;
  mul = λ x y. x * y;
  lt = ltb;
  le = leb;
  eq = nat_beq;
  eq_int = is_int;
  gt_int = exceeds;
  one_and_half = 1;
  three = 3;
  of_int = whole_of;
  parse = λ s. none;
  is_finite = λ x. true;
  small_integer = λ x. some (pos x);
  repr = decimal;
}

abbrev name_of : Bool → String
name_of true = "even"
name_of false = "odd"

-- a hash of two values
abbrev pub sha256 : List ℕ → String
sha256 bytes = name_of (nat_beq (length bytes % 2) 0)

name_nonempty : (b : Bool) → (name_of b == "") ≡ false
name_nonempty true = refl
name_nonempty false = refl

pub sha256_nonempty : (bytes : List ℕ) → (sha256 bytes == "") ≡ false
sha256_nonempty bytes = name_nonempty (nat_beq (length bytes % 2) 0)

abbrev pub event : String → String → Fields ℕ
event tenant id = field "tenantId" (str tenant) (field "eventId" (str id) end)

abbrev pub host : Host ℕ
host = record {
  str_of = λ v. "";
  int_of = λ s. none;
  search = λ pattern text. absent;
  fnmatch = λ name pattern. name == pattern;
  jmespath = λ path fields. none;
  wall_clock = λ tz. some (12, 0);
  stmt_hash = λ statement. some statement;
  s3_head = none;
  rds_execute = none;
  time_fn = λ n. n;
}

abbrev pub context : Context ℕ
context = record {
  tool_name = "s3_delete_bucket";
  arguments = field "count" (int (pos 7)) end;
  meta = none;
  intent = none;
  upstream = "aws";
  lockdown = false;
  cost_cache = some [];
  blast_radius_cache = [];
  blast_radius_backend = none;
  cumulative_spend_today_usd = none;
  state_backend = none;
  tenant_id = none;
  scope = none;
  scope_id = none;
  user_mappings = [];
  action_verbs = [];
  from_call_aws = λ fields. none;
}

abbrev pub world : World ℕ
world = record {
  errors = [];
  effective_tool_name = none;
  size_cache = none;
  lru = [];
  tracker = none;
  readings = 0;
}

abbrev pub policy : String → Option String → Conditions ℕ → Action → Policy ℕ
policy id tool conds action = record {
  id = id;
  name = id;
  description = "";
  match = record { upstream = "*"; tool = tool; tool_pattern = none; require_intent = false };
  when = conds;
  action = action;
  reason = id;
  priority = pos 100;
}
