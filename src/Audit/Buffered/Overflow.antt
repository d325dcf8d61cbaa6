-- ===== src/Audit/Buffered/Overflow.antt =====
-- What an overflow drops, and how large the buffer becomes.
use cloudmorph_tessera.Prelude.{
  ℕ, ◌+◌, ◌≤◌, ◌≡◌, true, false, Option, some, List, [], ◌∷◌, ◌++◌, ltb, none, ◌⊎◌,
}
use cloudmorph_tessera.Python.Float.{Float}
use cloudmorph_tessera.Python.Result.{Exception}
use cloudmorph_tessera.Python.Value.{Fields}
use cloudmorph_tessera.Audit.Buffered.{BufferedSink, event_bytes, buffer_bytes}

module _ {F : Type 0} ⦃fl : Float F⦄ where
  -- each of the dropped events was the oldest of a buffer above the cap
  abbrev pub AllOver : ℕ → List (Fields F) → List (Fields F) → Type 0
  AllOver limit [] kept = Unit
  AllOver limit (e ∷ dropped) kept =
      (ltb limit (buffer_bytes (e ∷ (dropped ++ kept))) ≡ true) × AllOver limit dropped kept

  -- what the loop has dropped and kept: it ends within the cap, or at the callback's exception
  abbrev pub Overflows :
      ℕ → List (Fields F) → List (Fields F) → List (Fields F) → Option Exception → Type 0
  Overflows limit queue dropped kept raised =
      (queue ≡ dropped ++ kept)
      × AllOver limit dropped kept
      × ((raised ≡ none) → ltb limit (buffer_bytes kept) ≡ false)

module _ {F S : Type 0} ⦃fl : Float F⦄ where
  -- What `emit` leaves of what is kept: the exception of the callback ends it before the event is kept;
  -- else the event is kept, and written if the file system raises nothing.
  abbrev pub Buffers :
      BufferedSink F S → Fields F → List (Fields F) → Option Exception × BufferedSink F S → Type 0
  Buffers b event kept (raised, b') =
      ((x : Exception) × (raised ≡ some x)
        × (b'.memory_queue ≡ kept)
        × (b'.persisted ≡ b.persisted))
      ⊎ ((b'.memory_queue ≡ kept ++ (event ∷ []))
          × (b'.persisted
              ≡ elim raised [ none ↦ b.persisted ++ (event ∷ []) | some x ↦ b.persisted ])
          × (buffer_bytes b'.memory_queue ≤ b.max_buffer_bytes + event_bytes event))
