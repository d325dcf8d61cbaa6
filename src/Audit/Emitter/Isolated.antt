-- ===== src/Audit/Emitter/Isolated.antt =====
-- One sink that fails does not keep the event from the others.
use cloudmorph_tessera.Prelude.{◌≡◌, refl, ap, ◌∙◌, String, Option, none, some, List, [], ◌∷◌, ◌++◌}
use cloudmorph_tessera.Python.Result.{Exception}
use cloudmorph_tessera.Python.Value.{Fields}
use cloudmorph_tessera.Audit.Emitter.{Sink, reported, deliver}

module _ {S T : Type 0} (view : S → T) where
  abbrev pub ReportSpares : Option (String → Exception → S → S) → Type 0
  ReportSpares none = Unit
  ReportSpares (some callback) =
      (name : String) (x : Exception) (w : S) → view (callback name x w) ≡ view w

  reported-Spares :
      (report : Option (String → Exception → S → S)) (name : String) (raised : Option Exception)
      (w : S)
      → ReportSpares report
      → view (reported report name raised w) ≡ view w
  unfolding reported
  reported-Spares report name none w h = refl
  reported-Spares none name (some x) w h = refl
  reported-Spares (some callback) name (some x) w h = h name x w

module _ {F S T : Type 0} (view : S → T) where
  -- what leaves a part of the world alone
  abbrev pub Spares : Sink F S → Type 0
  Spares sink = (event : Fields F) (w : S) → view (sink.emit event w).1 ≡ view w

  abbrev pub AllSpare : List (Sink F S) → Type 0
  AllSpare [] = Unit
  AllSpare (sink ∷ sinks) = Spares sink × AllSpare sinks

  deliver-AllSpare :
      (report : Option (String → Exception → S → S)) (sinks : List (Sink F S)) (event : Fields F)
      (w : S)
      → ReportSpares view report
      → AllSpare sinks
      → view (deliver report sinks event w) ≡ view w
  unfolding deliver
  deliver-AllSpare report [] event w h k = refl
  deliver-AllSpare report (sink ∷ sinks) event w h (k, ks) =
      deliver-AllSpare report sinks event
        (reported report sink.name (sink.emit event w).0 (sink.emit event w).1) h ks
      ∙ reported-Spares view report sink.name (sink.emit event w).0 (sink.emit event w).1 h
      ∙ k event w

  -- Where the callback and the other sinks leave alone what one sink keeps: whatever the other
  -- sinks raise, that sink does with the event what it would do alone.
  pub deliver_isolated :
      (step : Fields F → T → T) (report : Option (String → Exception → S → S))
      (before : List (Sink F S)) (sink : Sink F S) (after : List (Sink F S)) (event : Fields F)
      (w : S)
      → ReportSpares view report
      → AllSpare before
      → AllSpare after
      → ((e : Fields F) (u : S) → view (sink.emit e u).1 ≡ step e (view u))
      → view (deliver report (before ++ (sink ∷ after)) event w) ≡ step event (view w)
  unfolding deliver
  deliver_isolated step report [] sink after event w h b a own =
      deliver-AllSpare report after event
        (reported report sink.name (sink.emit event w).0 (sink.emit event w).1) h a
      ∙ reported-Spares view report sink.name (sink.emit event w).0 (sink.emit event w).1 h
      ∙ own event w
  deliver_isolated step report (s ∷ before) sink after event w h (b, bs) a own =
      deliver_isolated step report before sink after event
        (reported report s.name (s.emit event w).0 (s.emit event w).1) h bs a own
      ∙ ap (step event)
          (reported-Spares view report s.name (s.emit event w).0 (s.emit event w).1 h ∙ b event w)
