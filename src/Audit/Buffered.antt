-- ===== src/Audit/Buffered.antt =====
-- tessera/audit/sinks/_buffered.py: `BufferedSink`. A call of `emit` is one step, and so is a call of
-- `_drain`, in which no other call comes between two rounds. The files of the buffer are the events
-- that have been written to them. Opening and writing a file may fail, and so may the callback.
pub mod Overflow
use cloudmorph_tessera.Prelude.{
  ℕ, ◌+◌, Option, none, some, List, [], ◌∷◌, ◌++◌, length, ltb, if◌then◌else◌,
}
use cloudmorph_tessera.Python.Float.{Float}
use cloudmorph_tessera.Python.Result.{Exception}
use cloudmorph_tessera.Python.Text.{json_text}
use cloudmorph_tessera.Python.Value.{Fields, dict}
use cloudmorph_tessera.Audit.Emitter.{Sink}

pub record BufferedSink (F S : Type 0) : Type 0 where
  pub wrapped : Sink F S
  pub max_buffer_bytes : ℕ
  -- the callback, and what it raises
  pub on_drop : Option (Fields F → S → Option Exception × S)
  -- what the file system raises when the line of an event is written
  pub write_line : Fields F → S → Option Exception × S
  pub memory_queue : List (Fields F)
  -- the lines of the files of the days
  pub persisted : List (Fields F)

-- the files, with the line of an event if nothing was raised
abbrev pub lines_after :
    {F : Type 0} → Option Exception → List (Fields F) → Fields F → List (Fields F)
lines_after none persisted event = persisted ++ (event ∷ [])
lines_after (some x) persisted event = persisted

module _ {F : Type 0} ⦃fl : Float F⦄ where
  -- `len(json.dumps(e).encode("utf-8"))`: the text is ASCII
  unfoldable pub event_bytes : Fields F → ℕ
  unfolding json_text
  event_bytes e = length (json_text (dict e))

  -- `_current_buffer_bytes`
  unfoldable pub buffer_bytes : List (Fields F) → ℕ
  unfolding event_bytes
  buffer_bytes [] = 0
  buffer_bytes (e ∷ queue) = event_bytes e + buffer_bytes queue

  module _ {S : Type 0} where
    abbrev pub dropped_event :
        Option (Fields F → S → Option Exception × S) → Fields F → S → Option Exception × S
    dropped_event none e w = (none, w)
    dropped_event (some callback) e w = callback e w

    -- the loop that drops the oldest event; it ends where the callback raises
    unfoldable pub drop_oldest :
        ℕ
        → Option (Fields F → S → Option Exception × S)
        → List (Fields F)
        → S
        → (Option Exception × List (Fields F)) × S
    unfolding buffer_bytes
    drop_oldest limit on_drop [] w = ((none, []), w)
    drop_oldest limit on_drop (e ∷ queue) w =
        let (raised, w') = dropped_event on_drop e w in
        let rest = drop_oldest limit on_drop queue w' in
        if ltb limit (buffer_bytes (e ∷ queue))
        then elim raised [ none ↦ rest | some x ↦ ((some x, queue), w') ]
        else ((none, e ∷ queue), w)

    -- the event joins what is kept, and is written to the disk
    abbrev pub with_event :
        BufferedSink F S
        → Fields F
        → (Option Exception × List (Fields F)) × S
        → (Option Exception × BufferedSink F S) × S
    with_event b event ((some x, queue), w) = ((some x, record b { memory_queue = queue }), w)
    with_event b event ((none, queue), w) =
        let (raised, w') = b.write_line event w in
        (
          (
            raised,
            record b {
              memory_queue = queue ++ (event ∷ []);
              persisted = lines_after raised b.persisted event;
            },
          ),
          w',
        )

    abbrev pub after_attempt :
        BufferedSink F S
        → Fields F
        → Option Exception × S
        → (Option Exception × BufferedSink F S) × S
    after_attempt b event (none, w) = ((none, b), w)
    after_attempt b event (some x, w) =
        with_event b event (drop_oldest b.max_buffer_bytes b.on_drop b.memory_queue w)

    -- `BufferedSink.emit`, and what it raises
    unfoldable pub emit_buffered :
        BufferedSink F S → Fields F → S → (Option Exception × BufferedSink F S) × S
    unfolding drop_oldest
    emit_buffered b event w = after_attempt b event (b.wrapped.emit event w)

    -- `_drain` up to the first event that the wrapped sink still refuses
    unfoldable pub drain_from : Sink F S → List (Fields F) → S → List (Fields F) × S
    drain_from sink [] w = ([], w)
    drain_from sink (e ∷ queue) w =
        let rest = drain_from sink queue (sink.emit e w).1 in
        elim (sink.emit e w).0 [ none ↦ rest | some x ↦ (e ∷ queue, (sink.emit e w).1) ]
