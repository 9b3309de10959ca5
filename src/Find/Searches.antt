-- ===== src/Find/Searches.antt =====
-- TripleBit/FindEntityID.cpp: a search over the two columns of a predicate, and what it leaves.
use mgtag.Prelude.{
  ℕ, ◌*◌, ◌≤◌, ◌≡◌, refl, sym, ap, ap₂, ◌∙◌, List, [], ◌∷◌, ◌++◌, Option, some, length,
  length-take_le, length-append, arith,
}
use mgtag.Bitmap.{Column, Manager}
use mgtag.Bitmap.Pairs.{IsPair, Holds}
use mgtag.Buffer.{Buffer, contents, empty, set_sort_key, page_ids}
use mgtag.Buffer.Insert.{IsValid, IsAlloc, empty-IsValid}
use mgtag.Buffer.Combine.{merge_ids, merge_records, merge_buffer}
use mgtag.Buffer.Combined.{merge_buffer-ids, merge_buffer-records}
use mgtag.Find.{
  Turn, scan, Finder, prepare, format, search_all, id_of_x, id_of_sum, pair_of_x, pair_of_sum,
}
use mgtag.Find.Scans.{Emits, always, always-Breaks, take_while-always, collect, scan_lem}
use mgtag.Find.Inserts.{id_of_x-Emits, id_of_sum-Emits, pair_of_x-Emits, pair_of_sum-Emits}
use mgtag.Find.Merges.{
  low_pairs, high_pairs, flat, keys, key_of_low, key_of_high, record_of_low, record_of_high,
  Ordered, merge_ids-keys, merge_records-flat,
}

-- a block of whole pages, as every buffer has
pub record IsBlock (b : Buffer) : Type 0 where
  pub size : length b.cells ≡ b.total_size
  pub page : b.size_per_page ≡ page_ids

pub record IsReady (f : Finder) : Type 0 where
  pub x : IsBlock f.x_temp
  pub xy : IsBlock f.xy_temp

-- The columns hold the keys and the other IDs, in an order by the key.
pub record Stores (m : Manager) (ks : List (ℕ × ℕ)) : Type 0 where
  pub low : Holds m.first (low_pairs ks)
  pub high : Holds m.second (high_pairs ks)
  pub ordered : Ordered ks

pub prepare_lem :
    (n : ℕ) (b : Buffer)
    → IsBlock b
    → IsValid (prepare n b) × (contents (prepare n b) ≡ []) × ((prepare n b).id_count ≡ n)
unfolding prepare set_sort_key empty
prepare_lem n b h =
    let (v, none_yet) = empty-IsValid b h.size h.page in
    (
      record {
        off = v.off;
        points = v.points;
        next = v.next;
        room = v.room;
        size = v.size;
        page = v.page;
      },
      none_yet,
      refl,
    )

pub format_lem : (n : ℕ) (b : Buffer) → (format n b).size_per_page ≡ b.size_per_page
unfolding format set_sort_key
format_lem n b = ground arith

pub format-id_count : (n : ℕ) (b : Buffer) → (format n b).id_count ≡ n
unfolding format set_sort_key
format-id_count n b = ground arith

pub format-sort_key : (n : ℕ) (b : Buffer) → (format n b).sort_key ≡ 0
unfolding format set_sort_key
format-sort_key n b = ground arith

pub IsValid-IsBlock : (b : Buffer) → IsValid b → IsBlock b
IsValid-IsBlock b v = record { size = v.size; page = v.page }

pub inside : (b : Buffer) → IsValid b → b.used_size ≤ length b.cells
inside b v = omega (arith, v.room, v.size)

module _ (alloc : ℕ → List ℕ) (law : IsAlloc alloc) where
  -- what a loop over a column leaves in a temporary buffer
  pub filled :
      (body : List ℕ → Buffer → Option Turn) (out : ℕ × ℕ → List ℕ)
      → Emits IsPair body always out
      → (n : ℕ) (c : Column) (ps : List (ℕ × ℕ)) (t : Buffer) → Holds c ps
      → IsBlock t
      → (u : Buffer) × (scan body c (prepare n t) ≡ some u)
        × IsValid u
        × (contents u ≡ collect out ps)
        × (u.id_count ≡ n)
  filled body out emits n c ps t h block =
      let (v, none_yet, count) = prepare_lem n t block in
      let (u, runs, ins) =
        scan_lem IsPair body always out emits (always-Breaks IsPair body) c ps (prepare n t) h
          h.words v in
      (
        u,
        runs,
        ins.valid,
        ins.filled ∙ ap₂ (λ k l. k ++ collect out l) none_yet (take_while-always ps),
        ins.same_count ∙ count,
      )

  pub search_ids :
      (m : Manager) (ks : List (ℕ × ℕ)) (f : Finder) (buffer : Buffer)
      → Stores m ks
      → IsReady f
      → buffer.size_per_page ≡ page_ids
      → (g : Finder) × (b : Buffer) × (search_all alloc 1
            (id_of_x alloc)
            (id_of_sum alloc)
            m
            f
            buffer
          ≡ some (g, b))
        × IsReady g
        × (contents b ≡ keys ks)
  unfolding search_all
  search_ids m ks f buffer s ready page =
      let (x, runs_x, vx, cx, nx) =
        filled (id_of_x alloc) key_of_low (id_of_x-Emits alloc law) 1 m.first (low_pairs ks)
          f.x_temp s.low ready.x in
      let (xy, runs_xy, vxy, cxy, nxy) =
        filled (id_of_sum alloc) key_of_high (id_of_sum-Emits alloc law) 1 m.second (high_pairs ks)
          f.xy_temp s.high ready.xy in
      (
        record { x_temp = x; xy_temp = xy },
        merge_buffer alloc (format 1 buffer) x xy,
        ground arith,
        record { x = IsValid-IsBlock x vx; xy = IsValid-IsBlock xy vxy },
        merge_buffer-ids alloc law (format 1 buffer) x xy (format_lem 1 buffer ∙ page)
              (format-id_count 1 buffer) nx nxy (inside x vx) (inside xy vxy)
            ∙ ap₂ merge_ids cx cxy
            ∙ merge_ids-keys ks s.ordered,
      )

  length-collect :
      (out : ℕ × ℕ → List ℕ) (ps : List (ℕ × ℕ))
      → ((p : ℕ × ℕ) → length (out p) ≡ 2)
      → length (collect out ps) ≡ length ps * 2
  unfolding collect
  length-collect out [] two = refl
  length-collect out (p ∷ ps) two =
      omega (arith, two p, length-append (out p) (collect out ps), length-collect out ps two)

  pub used_of :
      (u : Buffer) (out : ℕ × ℕ → List ℕ) (ps : List (ℕ × ℕ))
      → IsValid u
      → contents u ≡ collect out ps
      → ((p : ℕ × ℕ) → length (out p) ≡ 2)
      → u.used_size ≡ length ps * 2
  used_of u out ps v c two =
      sym (length-take_le u.used_size u.cells (inside u v))
      ∙ ap (λ (k : List ℕ). length k) c
      ∙ length-collect out ps two

  pub search_records :
      (m : Manager) (ks : List (ℕ × ℕ)) (f : Finder) (buffer : Buffer)
      → Stores m ks
      → IsReady f
      → buffer.size_per_page ≡ page_ids
      → (g : Finder) × (b : Buffer) × (search_all alloc 2
            (pair_of_x alloc)
            (pair_of_sum alloc)
            m
            f
            buffer
          ≡ some (g, b))
        × IsReady g
        × (contents b ≡ flat ks)
  unfolding search_all
  search_records m ks f buffer s ready page =
      let lows = low_pairs ks in
      let highs = high_pairs ks in
      let (x, runs_x, vx, cx, nx) =
        filled (pair_of_x alloc) record_of_low (pair_of_x-Emits alloc law) 2 m.first lows f.x_temp
          s.low ready.x in
      let (xy, runs_xy, vxy, cxy, nxy) =
        filled (pair_of_sum alloc) record_of_high (pair_of_sum-Emits alloc law) 2 m.second highs
          f.xy_temp s.high ready.xy in
      (
        record { x_temp = x; xy_temp = xy },
        merge_buffer alloc (format 2 buffer) x xy,
        ground arith,
        record { x = IsValid-IsBlock x vx; xy = IsValid-IsBlock xy vxy },
        merge_buffer-records alloc law (format 2 buffer) x xy (length lows) (length highs)
              (format_lem 2 buffer ∙ page) (format-id_count 2 buffer) (format-sort_key 2 buffer) nx
              nxy (used_of x record_of_low lows vx cx (λ p. refl))
              (used_of xy record_of_high highs vxy cxy (λ p. refl)) (inside x vx) (inside xy vxy)
            ∙ ap₂ (λ a b. merge_records 2 0 a (length lows) b (length highs)) cx cxy
            ∙ merge_records-flat ks s.ordered,
      )
