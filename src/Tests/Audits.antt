-- ===== src/Tests/Audits.antt =====
-- The hash chain at concrete events.
use cloudmorph_tessera.Prelude.{
  ℕ, ◌≡◌, refl, String, true, false, none, List, [], ◌∷◌, length, some,
}
use cloudmorph_tessera.Python.Result.{Result, ok, err}
use cloudmorph_tessera.Python.Value.{Value, Fields, str, end, get, put, pop, dict, IsUnique, Value}
use cloudmorph_tessera.Python.Json.Order.{str_lt}
use cloudmorph_tessera.Audit.Canonical.{canonical_json}
use cloudmorph_tessera.Audit.Canonical.Total.{Encoded, Encoded}
use cloudmorph_tessera.Audit.Chain.{restore_head}
use cloudmorph_tessera.Audit.Chain.Restart.{stamp-restore_head}
use cloudmorph_tessera.Audit.Canonical.Order.{canonical-put-pop}
use cloudmorph_tessera.Audit.Chain.{
  HashChain, new_chain, stamp, tenant_of, verify_event_hash, verify_pair,
}
use cloudmorph_tessera.Audit.Chain.Stamp.{Stamped, stamp-Stamped}
use cloudmorph_tessera.Audit.Verifier.{WalkResult, walk_chain, walk_from, check, link_failure}
use cloudmorph_tessera.Audit.Verifier.Produced.{rows, stamp_all, stamp_all_verifies}
use cloudmorph_tessera.Tests.Fixtures.{fl, sha256, sha256_nonempty, event}

-- what a step returns, and the event or the chain if it raises
abbrev value : {A : Type 0} → A → Result A → A
value a (ok x) = x
value a (err x) = a

abbrev first : Fields ℕ × HashChain
first = value (end, new_chain) (stamp sha256 new_chain (event "a" "1"))

abbrev three : List (Fields ℕ)
three = event "a" "1" ∷ event "b" "2" ∷ event "a" "3" ∷ []

abbrev stamped : List (Fields ℕ) × HashChain
stamped = value ([], new_chain) (stamp_all sha256 new_chain three)

event-IsUnique : (tenant id : String) → IsUnique (event tenant id)
unfolding get
event-IsUnique tenant id = (refl, (refl, tt))

canonical-put-pop_example :
    canonical_json (dict (put "eventId" (str "") (pop "eventId" (event "a" "1"))))
    ≡ canonical_json (dict (put "eventId" (str "") (event "a" "1")))
canonical-put-pop_example = canonical-put-pop "eventId" "" (event "a" "1") (event-IsUnique "a" "1")

first_returns : stamp sha256 new_chain (event "a" "1") ≡ ok first
unfolding stamp str_lt
first_returns = refl

stamp-Stamped_example :
    (t : String) × (tenant_of (get "tenantId" (event "a" "1")) ≡ ok t)
    × Stamped sha256 new_chain (event "a" "1") t first.0 first.1
stamp-Stamped_example =
    stamp-Stamped sha256 sha256_nonempty new_chain (event "a" "1") first.0 first.1
      (event-IsUnique "a" "1") first_returns

all_return : stamp_all sha256 new_chain three ≡ ok stamped
unfolding stamp_all stamp str_lt
all_return = refl

stamp_all_verifies_example :
    (r : WalkResult ℕ) × (walk_chain sha256 (rows "a" stamped.0) ≡ ok r)
    × (r.is_ok ≡ true)
    × (r.events_checked ≡ length (rows "a" stamped.0))
stamp_all_verifies_example =
    stamp_all_verifies sha256 sha256_nonempty "a" new_chain three stamped.0 stamped.1
      (event-IsUnique "a" "1", (event-IsUnique "b" "2", (event-IsUnique "a" "3", tt))) all_return

two_rows : length (rows "a" stamped.0) ≡ 2
unfolding stamp_all stamp str_lt
two_rows = refl

abbrev failed : WalkResult ℕ
failed = record {
  events_checked = 0;
  first_event_at = str "";
  last_event_at = str "";
  is_ok = false;
  first_failure = none;
}

-- the rows of two tenants, walked as one chain
abbrev mixed : WalkResult ℕ
mixed = value failed (walk_chain sha256 stamped.0)

mixed_fails : mixed.is_ok ≡ false
unfolding walk_chain walk_from check verify_event_hash stamp_all stamp str_lt link_failure
    verify_pair
mixed_fails = refl

-- a stored head
abbrev stored : String
stored = "0123456789abcdef0123456789abcdef0123456789abcdef0123456789abcdef"

abbrev restored : HashChain
restored = value new_chain (restore_head new_chain "a" stored)

abbrev next : Fields ℕ × HashChain
next = value (end, new_chain) (stamp sha256 restored (event "a" "2"))

restore_returns : restore_head new_chain "a" stored ≡ ok restored
unfolding restore_head
restore_returns = refl

next_returns : stamp sha256 restored (event "a" "2") ≡ ok next
unfolding stamp restore_head str_lt
next_returns = refl

stamp-restore_head_example :
    (verify_event_hash sha256 next.0 ≡ ok true) × (get "prevEventHash" next.0 ≡ some (str stored))
stamp-restore_head_example =
    stamp-restore_head sha256 sha256_nonempty new_chain restored next.1 "a" stored (event "a" "2")
      next.0 (event-IsUnique "a" "2") (unfold tenant_of get in refl) restore_returns next_returns
