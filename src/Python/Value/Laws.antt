-- ===== src/Python/Value/Laws.antt =====
-- Laws of reads and writes of a `dict`.
use cloudmorph_tessera.Prelude.{
  ◌≡◌, refl, String, false, some, arith, ◌==◌, string_eq, eq_iff, if◌then◌else◌, true,
}
use cloudmorph_tessera.Python.Value.{Value, Fields, end, field, get, put, pop, IsUnique}

module _ {F : Type 0} where
  pub get-put :
      (k j : String) (v : Value F) (fs : Fields F)
      → get j (put k v fs) ≡ (if k == j then some v else get j fs)
  unfolding get put
  get-put k j v end = refl
  get-put k j v (field i w fs) =
      ground (arith, eq_iff k j, eq_iff i k, eq_iff i j, get-put k j v fs)

  pub get-put_ne :
      (k j : String) (v : Value F) (fs : Fields F)
      → (k == j) ≡ false
      → get j (put k v fs) ≡ get j fs
  get-put_ne k j v fs h = ground (arith, get-put k j v fs)

  pub get-pop_ne : (k j : String) (fs : Fields F) → (k == j) ≡ false → get j (pop k fs) ≡ get j fs
  unfolding get pop
  get-pop_ne k j end h = refl
  get-pop_ne k j (field i w fs) h =
      ground (arith, eq_iff k j, eq_iff i k, eq_iff i j, get-pop_ne k j fs h)

  pub put-put : (k : String) (v w : Value F) (fs : Fields F) → put k v (put k w fs) ≡ put k v fs
  unfolding put
  put-put k v w end = ground (arith, eq_iff k k)
  put-put k v w (field i x fs) = ground (arith, eq_iff i k, put-put k v w fs)

  pub put-pop_comm :
      (k j : String) (v : Value F) (fs : Fields F)
      → (k == j) ≡ false
      → put k v (pop j fs) ≡ pop j (put k v fs)
  unfolding put pop
  put-pop_comm k j v end h = ground (arith, eq_iff k j)
  put-pop_comm k j v (field i x fs) h =
      ground (arith, eq_iff k j, eq_iff i k, eq_iff i j, put-pop_comm k j v fs h)

  pub put-IsUnique :
      (k : String) (v : Value F) (fs : Fields F) → IsUnique fs → IsUnique (put k v fs)
  unfolding put get
  put-IsUnique k v end h = (refl, tt)
  put-IsUnique k v (field i x fs) h =
      ground (arith, eq_iff i k, eq_iff k i, get-put k i v fs, put-IsUnique k v fs h.1)

  pub get-cons_ne :
      (k j : String) (w : Value F) (fs : Fields F)
      → (j == k) ≡ false
      → get k (field j w fs) ≡ get k fs
  unfolding get
  get-cons_ne k j w fs h = rw h

  pub put-cons_ne :
      (k j : String) (v w : Value F) (fs : Fields F)
      → (j == k) ≡ false
      → put k v (field j w fs) ≡ field j w (put k v fs)
  unfolding put
  put-cons_ne k j v w fs h = rw h

  pub put-cons_eq :
      (k j : String) (v w : Value F) (fs : Fields F)
      → (j == k) ≡ true
      → put k v (field j w fs) ≡ field j v fs
  unfolding put
  put-cons_eq k j v w fs h = rw h

  pub pop-cons_ne :
      (k j : String) (w : Value F) (fs : Fields F)
      → (j == k) ≡ false
      → pop k (field j w fs) ≡ field j w (pop k fs)
  unfolding pop
  pop-cons_ne k j w fs h = rw h

  pub pop-cons_eq :
      (k j : String) (w : Value F) (fs : Fields F) → (j == k) ≡ true → pop k (field j w fs) ≡ fs
  unfolding pop
  pop-cons_eq k j w fs h = rw h
