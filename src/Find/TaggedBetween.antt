-- ===== src/Find/TaggedBetween.antt =====
-- TripleBit/FindEntityID.cpp: the searches that add the predicate to each ID, within bounds.
use mgtag.Prelude.{ℕ, ◌+◌, sym, ap, ap₂, ◌∙◌, true, List, ◌++◌, arith}
use mgtag.Chunk.Codec.{read-get_insert_chars}
use mgtag.Bitmap.{Column, Manager}
use mgtag.LineIndex.Offset.{ColumnIndex}
use mgtag.Buffer.{Buffer}
use mgtag.Buffer.Insert.{IsAlloc}
use mgtag.Buffer.Append.{HasRoom, append_other_lem}
use mgtag.Find.{Finder, format}
use mgtag.Find.Scans.{Emits, Breaks, collect}
use mgtag.Find.Inserts.{insert2-Inserted}
use mgtag.Find.Merges.{low_pairs, high_pairs}
use mgtag.Find.Positions.{
  key_x, key_sum, IsPosition, select, up_to, first_id, low_pairs-Ascends, high_pairs-Ascends,
  low_pairs-select, high_pairs-select,
}
use mgtag.Find.Searches.{IsReady, Stores, IsValid-IsBlock}
use mgtag.Find.Bodies.{From}
use mgtag.Find.Between.{filled-From}
use mgtag.Find.Ranges.{tagged_x_up_to, tagged_sum_up_to, search_tagged_from}
use mgtag.Find.Tagged.{tag, tags-low, tags-high, Leaves, format-HasRoom}

module _ (alloc : ℕ → List ℕ) (law : IsAlloc alloc) (id min_id max_id : ℕ) where
  tagged_x-Emits :
      Emits
        (From key_x min_id)
        (tagged_x_up_to alloc id max_id)
        (up_to key_x max_id)
        (λ p. tag true id p.0)
  unfolding Emits tagged_x_up_to
  tagged_x-Emits x y c rest t fits low v test =
      let (middle, read, _, _, skip) =
        read-get_insert_chars x y c rest (omega arith) (omega arith) low in
      let (u, e, ins) = insert2-Inserted alloc law t x id v in (u, ground arith, ins)

  tagged_x-Breaks : Breaks (From key_x min_id) (tagged_x_up_to alloc id max_id) (up_to key_x max_id)
  unfolding Breaks tagged_x_up_to
  tagged_x-Breaks x y c rest t fits low test =
      let (middle, read, _, _, skip) =
        read-get_insert_chars x y c rest (omega arith) (omega arith) low in
      ground arith

  tagged_sum-Emits :
      Emits
        (From key_sum min_id)
        (tagged_sum_up_to alloc id max_id)
        (up_to key_sum max_id)
        (λ p. tag true id (p.0 + p.1))
  unfolding Emits tagged_sum_up_to
  tagged_sum-Emits x y c rest t fits low v test =
      let (middle, read, then_y, _, _) =
        read-get_insert_chars x y c rest (omega arith) (omega arith) low in
      let (u, e, ins) = insert2-Inserted alloc law t (x + y) id v in (u, ground arith, ins)

  tagged_sum-Breaks :
      Breaks (From key_sum min_id) (tagged_sum_up_to alloc id max_id) (up_to key_sum max_id)
  unfolding Breaks tagged_sum_up_to
  tagged_sum-Breaks x y c rest t fits low test =
      let (middle, read, then_y, _, _) =
        read-get_insert_chars x y c rest (omega arith) (omega arith) low in
      ground arith

  pub search_tagged_from_lem :
      (index : Column → ColumnIndex) (unset : ℕ) (m : Manager) (ks : List (ℕ × ℕ)) (f : Finder)
      (buffer : Buffer)
      → Stores m ks
      → IsPosition index unset m ks min_id
      → IsReady f
      → HasRoom buffer
      → Leaves
          (search_tagged_from alloc index unset id min_id max_id m f buffer)
          buffer
          true
          id
          (select first_id min_id max_id ks)
  unfolding search_tagged_from
  search_tagged_from_lem index unset m ks f buffer s at ready room =
      let runs_low = at.runs_first in
      let runs_high = at.runs_second in
      let found = select first_id min_id max_id ks in
      let (x, runs_x, vx, cx, _) =
        filled-From alloc law min_id max_id (tagged_x_up_to alloc id max_id) key_x
          (λ p. tag true id p.0) tagged_x-Emits tagged_x-Breaks 2 m.first (low_pairs ks) at.first
          f.x_temp s.low (low_pairs-Ascends ks s.ordered) at.low ready.x in
      let (xy, runs_xy, vxy, cxy, _) =
        filled-From alloc law min_id max_id (tagged_sum_up_to alloc id max_id) key_sum
          (λ p. tag true id (p.0 + p.1)) tagged_sum-Emits tagged_sum-Breaks 2 m.second
          (high_pairs ks) at.second f.xy_temp s.high (high_pairs-Ascends ks s.ordered) at.high
          ready.xy in
      let (room1, same) = format-HasRoom 2 buffer room in
      let (a, e, ca, room2) = append_other_lem alloc law (format 2 buffer) x room1 in
      let (b, h, cb, room3) = append_other_lem alloc law a xy room2 in
      let low =
        cx ∙ ap (collect (λ p. tag true id p.0)) (sym (low_pairs-select min_id max_id ks)) in
      let high =
        cxy
        ∙ ap (collect (λ p. tag true id (p.0 + p.1))) (sym (high_pairs-select min_id max_id ks)) in
      (
        record { x_temp = x; xy_temp = xy },
        b,
        ground arith,
        record { x = IsValid-IsBlock x vx; xy = IsValid-IsBlock xy vxy },
        room3,
        cb
            ∙ ap₂ (λ k l. k ++ l) (ca ∙ ap₂ (λ k l. k ++ l) same (low ∙ tags-low true id found))
                (high ∙ tags-high true id found),
      )
