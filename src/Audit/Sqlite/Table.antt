-- ===== src/Audit/Sqlite/Table.antt =====
-- The table of `SqliteSink`: its constraints, and what `emit` does to it.
use cloudmorph_tessera.Prelude.{
  ℕ, suc, ◌+◌, ◌≡◌, refl, ap, String, Bool, true, false, [], ◌∷◌, ◌++◌, length, any, reverse, ltb,
  ◌==◌, string_eq, if◌then◌else◌, arith, or_split, keep-append, reverse-cons,
}
use cloudmorph_tessera.Python.Result.{ok, audit_sink_error, guard-eq-ok}
use cloudmorph_tessera.Audit.Sqlite.{
  Row, Table, in_scope, max_seq, clashes, insert, insert_by, order_by, by_seq, by_seq_desc,
}

module _ {F : Type 0} where
  -- the numbers from `n + 1` on
  abbrev pub IsConsecutive : ℕ → Table F → Type 0
  IsConsecutive n [] = Unit
  IsConsecutive n (r ∷ rows) = (r.seq ≡ suc n) × IsConsecutive (suc n) rows

  -- no two rows have one id, one hash, or one number in a scope
  abbrev pub IsDistinct : Table F → Type 0
  IsDistinct [] = Unit
  IsDistinct (r ∷ rows) = (any (λ later. clashes r later) rows ≡ false) × IsDistinct rows

  pub record IsTable (rows : Table F) : Type 0 where
    pub distinct : IsDistinct rows
    pub consecutive : (scope : String) → IsConsecutive 0 (in_scope scope rows)

  pub IsConsecutive-append :
      (n : ℕ) (rows : Table F) (new : Row F)
      → IsConsecutive n rows
      → new.seq ≡ n + length rows + 1
      → IsConsecutive n (rows ++ (new ∷ []))
  IsConsecutive-append n [] new h p = (omega (arith, p), tt)
  IsConsecutive-append n (r ∷ rows) new (q, h) p =
      (q, IsConsecutive-append (suc n) rows new h (omega (arith, p)))

  any-append :
      (p : Row F → Bool) (rows : Table F) (new : Row F)
      → any p rows ≡ false
      → p new ≡ false
      → any p (rows ++ (new ∷ [])) ≡ false
  any-append p [] new h k = rw k refl
  any-append p (r ∷ rows) new h k =
      let (a, b) = or_split (p r) _ h in rw a (any-append p rows new b k)

  pub IsDistinct-append :
      (rows : Table F) (new : Row F)
      → IsDistinct rows
      → any (λ r. clashes r new) rows ≡ false
      → IsDistinct (rows ++ (new ∷ []))
  IsDistinct-append [] new d c = (refl, tt)
  IsDistinct-append (r ∷ rows) new (fresh, d) c =
      let (a, b) = or_split (clashes r new) _ c in
      (any-append (λ later. clashes r later) rows new fresh a, IsDistinct-append rows new d b)

  max_seq-IsConsecutive :
      (n : ℕ) (rows : Table F)
      → IsConsecutive n rows
      → (if ltb (max_seq rows) n then n else max_seq rows) ≡ n + length rows
  unfolding max_seq
  max_seq-IsConsecutive n [] h = ground arith
  max_seq-IsConsecutive n (r ∷ rows) (p, h) =
      ground (arith, p, max_seq-IsConsecutive (suc n) rows h)

  max_seq-length : (rows : Table F) → IsConsecutive 0 rows → max_seq rows ≡ length rows
  max_seq-length rows h = ground (arith, max_seq-IsConsecutive 0 rows h)

  pub in_scope-append :
      (scope : String) (rows : Table F) (new : Row F)
      → in_scope scope (rows ++ (new ∷ []))
        ≡ in_scope scope rows ++ (if new.scope == scope then new ∷ [] else [])
  in_scope-append scope rows new = keep-append (λ r. r.scope == scope) rows (new ∷ [])

  -- Rows that have consecutive numbers are in the order of their numbers.
  insert_by-first :
      (n : ℕ) (r : Row F) (rows : Table F)
      → r.seq ≡ n
      → IsConsecutive n rows
      → insert_by by_seq r rows ≡ r ∷ rows
  unfolding insert_by
  insert_by-first n r [] p h = refl
  insert_by-first n r (s ∷ rows) p (q, h) = ground (arith, p, q)

  pub order_by-IsConsecutive :
      (n : ℕ) (rows : Table F) → IsConsecutive n rows → order_by by_seq rows ≡ rows
  unfolding order_by
  order_by-IsConsecutive n [] h = refl
  order_by-IsConsecutive n (r ∷ rows) (p, h) =
      rw (order_by-IsConsecutive (suc n) rows h) (insert_by-first (suc n) r rows p h)

  -- In the descending order they are reversed.
  abbrev IsAbove : ℕ → Table F → Type 0
  IsAbove n [] = Unit
  IsAbove n (r ∷ rows) = (ltb n r.seq ≡ true) × IsAbove n rows

  IsAbove-append :
      (n : ℕ) (rows : Table F) (r : Row F)
      → IsAbove n rows
      → ltb n r.seq ≡ true
      → IsAbove n (rows ++ (r ∷ []))
  IsAbove-append n [] r h p = (p, tt)
  IsAbove-append n (s ∷ rows) r (q, h) p = (q, IsAbove-append n rows r h p)

  insert_by-last :
      (r : Row F) (rows : Table F)
      → IsAbove r.seq rows
      → insert_by by_seq_desc r rows ≡ rows ++ (r ∷ [])
  unfolding insert_by
  insert_by-last r [] h = refl
  insert_by-last r (s ∷ rows) (q, h) = ground (arith, q, insert_by-last r rows h)

  IsAbove-reverse :
      (n m : ℕ) (rows : Table F)
      → ltb n (suc m) ≡ true
      → IsConsecutive m rows
      → IsAbove n (reverse rows)
  IsAbove-reverse n m [] p h = tt
  IsAbove-reverse n m (r ∷ rows) p (q, h) = rw (reverse-cons r rows) (
      IsAbove-append n (reverse rows) r (IsAbove-reverse n (suc m) rows (ground (arith, p)) h)
        (rw q p))

  pub order_by-reverse :
      (n : ℕ) (rows : Table F) → IsConsecutive n rows → order_by by_seq_desc rows ≡ reverse rows
  unfolding order_by
  order_by-reverse n [] h = refl
  order_by-reverse n (r ∷ rows) (p, h) = rw (order_by-reverse (suc n) rows h) (
      rw (reverse-cons r rows) (
        insert_by-last r (reverse rows) (IsAbove-reverse r.seq (suc n) rows (ground (arith, p)) h)))

  pub insert_inv :
      (new : Row F) (rows rows' : Table F)
      → insert new rows ≡ ok rows'
      → (any (λ r. clashes r new) rows ≡ false) × (rows ++ (new ∷ []) ≡ rows')
  unfolding insert
  insert_inv new rows rows' p = guard-eq-ok (any (λ r. clashes r new) rows) audit_sink_error p

  pub next_seq :
      (scope u : String) (rows : Table F)
      → IsConsecutive 0 (in_scope scope rows)
      → (new : Row F) → new.seq ≡ max_seq (in_scope u rows) + 1
      → u ≡ scope
      → new.seq ≡ 0 + length (in_scope scope rows) + 1
  next_seq scope u rows h new p q =
      let named : max_seq (in_scope u rows) ≡ max_seq (in_scope scope rows) =
        ap (λ t. max_seq (in_scope t rows)) q in
      omega (arith, p, named, max_seq-length (in_scope scope rows) h)
