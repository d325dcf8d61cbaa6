-- ===== src/Tests/Buffers.antt =====
-- A buffer of one event before a sink that always raises.
use cloudmorph_tessera.Prelude.{ℕ, ◌+◌, ◌≡◌, refl, none, some, [], ◌∷◌}
use cloudmorph_tessera.Python.Result.{type_error}
use cloudmorph_tessera.Python.Json.{escape}
use cloudmorph_tessera.Audit.Emitter.{Sink}
use cloudmorph_tessera.Audit.Buffered.{BufferedSink, emit_buffered}
use cloudmorph_tessera.Tests.Fixtures.{fl, event}

abbrev offline : Sink ℕ ℕ
offline = record { name = "offline"; emit = λ e w. (some type_error, w + 1); close = λ w. w }

abbrev buffer : BufferedSink ℕ ℕ
buffer = record {
  wrapped = offline;
  max_buffer_bytes = 10;
  on_drop = none;
  write_line = λ e w. (none, w);
  memory_queue = event "a" "1" ∷ [];
  persisted = event "a" "1" ∷ [];
}

-- one whose callback raises
abbrev watched : BufferedSink ℕ ℕ
watched = record buffer { on_drop = some (λ e w. (some type_error, w)) }

-- The new event is kept although it alone is above the bound.
above_the_bound : (emit_buffered buffer (event "a" "2") 0).0.1.memory_queue ≡ event "a" "2" ∷ []
unfolding emit_buffered escape
above_the_bound = refl

-- Both events are lost where the callback raises.
both_lost : (emit_buffered watched (event "a" "2") 0).0.1.memory_queue ≡ []
unfolding emit_buffered escape
both_lost = refl
