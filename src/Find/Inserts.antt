-- ===== src/Find/Inserts.antt =====
-- TripleBit/FindEntityID.cpp: what the bodies of the loops without bounds insert.
use mgtag.Prelude.{ℕ, ◌+◌, ◌≡◌, List, [], ◌∷◌, some, arith, ◌>>=◌}
use mgtag.Chunk.Codec.{read-get_insert_chars}
use mgtag.Bitmap.Pairs.{IsPair}
use mgtag.Buffer.{Buffer, insert_id, grow, write_next}
use mgtag.Buffer.Insert.{IsValid, IsAlloc, insert_id_lem}
use mgtag.Find.{insert2, id_of_x, id_of_sum, pair_of_x, pair_of_sum}
use mgtag.Find.Scans.{Emits, Inserted, Inserted-trans, always}

module _ (alloc : ℕ → List ℕ) (law : IsAlloc alloc) where
  insert_id-id_count :
      (t u : Buffer) (id : ℕ) → insert_id alloc t id ≡ some u → u.id_count ≡ t.id_count
  unfolding insert_id write_next grow
  insert_id-id_count t u id h = ground arith

  pub insert_id-Inserted :
      (t : Buffer) (id : ℕ)
      → IsValid t
      → (u : Buffer) × (insert_id alloc t id ≡ some u) × Inserted t u (id ∷ [])
  insert_id-Inserted t id v =
      let (u, e, w, c) = insert_id_lem alloc law t id v in
      (u, e, record { valid = w; filled = c; same_count = insert_id-id_count t u id e })

  pub insert2-Inserted :
      (t : Buffer) (a b : ℕ)
      → IsValid t
      → (u : Buffer) × (insert2 alloc t a b ≡ some u) × Inserted t u (a ∷ b ∷ [])
  unfolding insert2
  insert2-Inserted t a b v =
      let (u, e, first) = insert_id-Inserted t a v in
      let (w, f, second) = insert_id-Inserted u b first.valid in
      (w, rw (e, ◌>>=◌) f, Inserted-trans t u w (a ∷ []) (b ∷ []) first second)

  pub id_of_x-Emits : Emits IsPair (id_of_x alloc) always (λ p. p.0 ∷ [])
  unfolding Emits id_of_x
  id_of_x-Emits x y c rest t pair low v _ =
      let (middle, read, _, _, skip) =
        read-get_insert_chars x y c rest (omega arith) (omega arith) low in
      let (u, e, ins) = insert_id-Inserted t x v in (u, ground arith, ins)

  pub id_of_sum-Emits : Emits IsPair (id_of_sum alloc) always (λ p. (p.0 + p.1) ∷ [])
  unfolding Emits id_of_sum
  id_of_sum-Emits x y c rest t pair low v _ =
      let (middle, read, then_y, _, _) =
        read-get_insert_chars x y c rest (omega arith) (omega arith) low in
      let (u, e, ins) = insert_id-Inserted t (x + y) v in (u, ground arith, ins)

  pub pair_of_x-Emits : Emits IsPair (pair_of_x alloc) always (λ p. p.0 ∷ (p.0 + p.1) ∷ [])
  unfolding Emits pair_of_x
  pair_of_x-Emits x y c rest t pair low v _ =
      let (middle, read, then_y, _, _) =
        read-get_insert_chars x y c rest (omega arith) (omega arith) low in
      let (u, e, ins) = insert2-Inserted t x (x + y) v in (u, ground arith, ins)

  pub pair_of_sum-Emits : Emits IsPair (pair_of_sum alloc) always (λ p. (p.0 + p.1) ∷ p.0 ∷ [])
  unfolding Emits pair_of_sum
  pair_of_sum-Emits x y c rest t pair low v _ =
      let (middle, read, then_y, _, _) =
        read-get_insert_chars x y c rest (omega arith) (omega arith) low in
      let (u, e, ins) = insert2-Inserted t (x + y) x v in (u, ground arith, ins)
