-- ===== src/Find/Between.antt =====
-- TripleBit/FindEntityID.cpp: the searches within bounds, where the line index gives the first pair
-- not below the ID that they start from.
use mgtag.Prelude.{ℕ, ◌≡◌, refl, sym, ap, ap₂, ◌∙◌, List, ◌++◌, Option, some, length, arith}
use mgtag.Bitmap.{Column, Manager}
use mgtag.Bitmap.Pairs.{Holds}
use mgtag.LineIndex.Offset.{ColumnIndex}
use mgtag.Buffer.{Buffer, contents, page_ids}
use mgtag.Buffer.Insert.{IsValid, IsAlloc}
use mgtag.Buffer.Combine.{merge_ids, merge_records, merge_buffer}
use mgtag.Buffer.Combined.{merge_buffer-ids, merge_buffer-records}
use mgtag.Find.{Finder, prepare, format, scan_from}
use mgtag.Find.Scans.{Emits, Breaks, collect}
use mgtag.Find.Merges.{
  low_pairs, high_pairs, keys, flat, key_of_low, key_of_high, record_of_low, record_of_high,
  merge_ids-keys, merge_records-flat,
}
use mgtag.Find.Positions.{
  key_x, key_sum, IsFirst, IsPosition, select, Ascends, up_to, first_id, low_pairs-Ascends,
  high_pairs-Ascends, low_pairs-select, high_pairs-select, select-Ordered,
}
use mgtag.Find.Searches.{
  IsBlock, IsReady, Stores, prepare_lem, format_lem, format-id_count, format-sort_key,
  IsValid-IsBlock, inside, used_of,
}
use mgtag.Find.Bodies.{
  From, from_lem, subject_x-Emits, subject_x-Breaks, subject_sum-Emits, subject_sum-Breaks,
  object_x-Emits, object_x-Breaks, object_sum-Emits, object_sum-Breaks, pair_x-Emits, pair_x-Breaks,
  pair_sum-Emits, pair_sum-Breaks,
}
use mgtag.Find.Ranges.{
  Body, subject_x_between, subject_sum_between, object_x_up_to, object_sum_up_to, pair_x_up_to,
  pair_sum_up_to, search_from,
}

module _ (alloc : ℕ → List ℕ) (law : IsAlloc alloc) (min_id max_id : ℕ) where
  -- what a loop from a position leaves in a temporary buffer
  pub filled-From :
      (body : Body) (key : ℕ × ℕ → ℕ) (out : ℕ × ℕ → List ℕ)
      → Emits (From key min_id) body (up_to key max_id) out
      → Breaks (From key min_id) body (up_to key max_id)
      → (n : ℕ) (c : Column) (ps : List (ℕ × ℕ)) (offset : Option ℕ) (t : Buffer) → Holds c ps
      → Ascends key ps
      → IsFirst key min_id ps offset
      → IsBlock t
      → (u : Buffer) × (scan_from body c offset (prepare n t) ≡ some u)
        × IsValid u
        × (contents u ≡ collect out (select key min_id max_id ps))
        × (u.id_count ≡ n)
  filled-From body key out emits breaks n c ps offset t h s at block =
      let (v, none_yet, count) = prepare_lem n t block in
      let (u, runs, ins) =
        from_lem body key min_id max_id out emits breaks c ps offset (prepare n t) h s v at in
      (
        u,
        runs,
        ins.valid,
        ins.filled ∙ ap (λ k. k ++ collect out (select key min_id max_id ps)) none_yet,
        ins.same_count ∙ count,
      )

  module _ (index : Column → ColumnIndex) (unset : ℕ) (m : Manager) (ks : List (ℕ × ℕ)) (f : Finder)
      (buffer : Buffer) (s : Stores m ks) (at : IsPosition index unset m ks min_id)
      (ready : IsReady f) (page : buffer.size_per_page ≡ page_ids) where
    search_from_ids :
        (first second : Body)
        → Emits (From key_x min_id) first (up_to key_x max_id) key_of_low
        → Breaks (From key_x min_id) first (up_to key_x max_id)
        → Emits (From key_sum min_id) second (up_to key_sum max_id) key_of_high
        → Breaks (From key_sum min_id) second (up_to key_sum max_id)
        → (g : Finder) × (b : Buffer) × (search_from alloc index unset 1 first second m min_id f
              buffer
            ≡ some (g, b))
          × IsReady g
          × (contents b ≡ keys (select first_id min_id max_id ks))
    unfolding search_from
    search_from_ids first second emits1 breaks1 emits2 breaks2 =
        let runs_low = at.runs_first in
        let runs_high = at.runs_second in
        let (x, runs_x, vx, cx, nx) =
          filled-From first key_x key_of_low emits1 breaks1 1 m.first (low_pairs ks) at.first
            f.x_temp s.low (low_pairs-Ascends ks s.ordered) at.low ready.x in
        let (xy, runs_xy, vxy, cxy, nxy) =
          filled-From second key_sum key_of_high emits2 breaks2 1 m.second (high_pairs ks) at.second
            f.xy_temp s.high (high_pairs-Ascends ks s.ordered) at.high ready.xy in
        (
          record { x_temp = x; xy_temp = xy },
          merge_buffer alloc (format 1 buffer) x xy,
          ground arith,
          record { x = IsValid-IsBlock x vx; xy = IsValid-IsBlock xy vxy },
          merge_buffer-ids alloc law (format 1 buffer) x xy (format_lem 1 buffer ∙ page)
                (format-id_count 1 buffer) nx nxy (inside x vx) (inside xy vxy)
              ∙ ap₂ merge_ids
                  (cx ∙ ap (collect key_of_low) (sym (low_pairs-select min_id max_id ks)))
                  (cxy ∙ ap (collect key_of_high) (sym (high_pairs-select min_id max_id ks)))
              ∙ merge_ids-keys (select first_id min_id max_id ks)
                  (select-Ordered min_id max_id ks s.ordered),
        )

    pub search_subjects :
        (g : Finder) × (b : Buffer) × (search_from alloc index unset 1
            (subject_x_between alloc min_id max_id)
            (subject_sum_between alloc min_id max_id)
            m
            min_id
            f
            buffer
          ≡ some (g, b))
        × IsReady g
        × (contents b ≡ keys (select first_id min_id max_id ks))
    search_subjects =
        search_from_ids _ _ (subject_x-Emits alloc law min_id max_id)
          (subject_x-Breaks alloc law min_id max_id) (subject_sum-Emits alloc law min_id max_id)
          (subject_sum-Breaks alloc law min_id max_id)

    pub search_objects :
        (g : Finder) × (b : Buffer) × (search_from alloc index unset 1
            (object_x_up_to alloc max_id)
            (object_sum_up_to alloc max_id)
            m
            min_id
            f
            buffer
          ≡ some (g, b))
        × IsReady g
        × (contents b ≡ keys (select first_id min_id max_id ks))
    search_objects =
        search_from_ids _ _ (object_x-Emits alloc law min_id max_id)
          (object_x-Breaks alloc law min_id max_id) (object_sum-Emits alloc law min_id max_id)
          (object_sum-Breaks alloc law min_id max_id)

    pub search_pairs :
        (g : Finder) × (b : Buffer) × (search_from alloc index unset 2
            (pair_x_up_to alloc max_id)
            (pair_sum_up_to alloc max_id)
            m
            min_id
            f
            buffer
          ≡ some (g, b))
        × IsReady g
        × (contents b ≡ flat (select first_id min_id max_id ks))
    unfolding search_from
    search_pairs =
        let runs_low = at.runs_first in
        let runs_high = at.runs_second in
        let chosen = select first_id min_id max_id ks in
        let lows = low_pairs chosen in
        let highs = high_pairs chosen in
        let (x, runs_x, vx, cx, nx) =
          filled-From (pair_x_up_to alloc max_id) key_x record_of_low
            (pair_x-Emits alloc law min_id max_id) (pair_x-Breaks alloc law min_id max_id) 2 m.first
            (low_pairs ks) at.first f.x_temp s.low (low_pairs-Ascends ks s.ordered) at.low
            ready.x in
        let (xy, runs_xy, vxy, cxy, nxy) =
          filled-From (pair_sum_up_to alloc max_id) key_sum record_of_high
            (pair_sum-Emits alloc law min_id max_id) (pair_sum-Breaks alloc law min_id max_id) 2
            m.second (high_pairs ks) at.second f.xy_temp s.high (high_pairs-Ascends ks s.ordered)
            at.high ready.xy in
        let fx = cx ∙ ap (collect record_of_low) (sym (low_pairs-select min_id max_id ks)) in
        let fxy = cxy ∙ ap (collect record_of_high) (sym (high_pairs-select min_id max_id ks)) in
        (
          record { x_temp = x; xy_temp = xy },
          merge_buffer alloc (format 2 buffer) x xy,
          ground arith,
          record { x = IsValid-IsBlock x vx; xy = IsValid-IsBlock xy vxy },
          merge_buffer-records alloc law (format 2 buffer) x xy (length lows) (length highs)
                (format_lem 2 buffer ∙ page) (format-id_count 2 buffer) (format-sort_key 2 buffer)
                nx nxy (used_of alloc law x record_of_low lows vx fx (λ p. refl))
                (used_of alloc law xy record_of_high highs vxy fxy (λ p. refl)) (inside x vx)
                (inside xy vxy)
              ∙ ap₂ (λ a b. merge_records 2 0 a (length lows) b (length highs)) fx fxy
              ∙ merge_records-flat chosen (select-Ordered min_id max_id ks s.ordered),
        )
