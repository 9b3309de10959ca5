-- ===== src/Find/OneId.antt =====
-- TripleBit/FindEntityID.cpp: the searches of one ID, where the line index gives the first pair
-- not below the ID that they start from.
use mgtag.Prelude.{
  ℕ, ◌+◌, ◌≡◌, inl, inr, refl, sym, ap, ap₂, ◌∙◌, subst, List, [], ◌++◌, Option, some, ltb,
  Bool-cases, arith, All-right,
}
use mgtag.Chunk.Codec.{read-get_insert_chars}
use mgtag.Bitmap.{Column, Manager}
use mgtag.Bitmap.Pairs.{IsPair, Holds}
use mgtag.LineIndex.Offset.{ColumnIndex}
use mgtag.Buffer.{Buffer, contents, empty, page_ids}
use mgtag.Buffer.Insert.{IsValid, IsAlloc, empty-IsValid}
use mgtag.Buffer.Combine.{merge_ids, merge_buffer}
use mgtag.Buffer.Combined.{merge_buffer-ids}
use mgtag.Find.{Finder, prepare, format, scan_from}
use mgtag.Find.Scans.{Inserted, Inserted-none, Emits, Breaks, collect, scan_from_lem}
use mgtag.Find.Inserts.{insert_id-Inserted}
use mgtag.Find.Merges.{low_pairs, high_pairs}
use mgtag.Find.Positions.{key_x, key_sum, IsFirst, absent, present, IsPosition}
use mgtag.Find.Others.{
  Ascend2, goes_on, out_other, pick, pick_lem, pick_absent, pick_low, pick_high, others,
  low_pairs-Ascend2, high_pairs-Ascend2, merge_ids-others,
}
use mgtag.Find.Searches.{
  IsBlock, IsReady, Stores, prepare_lem, format_lem, format-id_count, IsValid-IsBlock, inside,
}
use mgtag.Find.Ranges.{Body, prepare_ids, other_of_x, other_of_sum, search_other}

-- how the temporary buffers are prepared: empty, for single IDs
abbrev pub IsPrepared : (Buffer → Buffer) → Type 0
IsPrepared ready =
    (b : Buffer)
    → IsBlock b
    → IsValid (ready b) × (contents (ready b) ≡ []) × ((ready b).id_count ≡ 1)

pub prepare-IsPrepared : IsPrepared (prepare 1)
prepare-IsPrepared b h = prepare_lem 1 b h

pub prepare_ids-IsPrepared : IsPrepared prepare_ids
unfolding prepare_ids empty
prepare_ids-IsPrepared b h =
    let (v, none_yet) = empty-IsValid b h.size h.page in
    (
      record {
        off = v.off;
        points = v.points;
        next = v.next;
        room = v.room;
        size = v.size;
        page = v.page;
      },
      none_yet,
      refl,
    )

module _ (alloc : ℕ → List ℕ) (law : IsAlloc alloc) (id min_id max_id : ℕ) where
  -- A loop from the position of the ID on inserts what is to be picked.
  one_lem :
      (body : Body) (key other : ℕ × ℕ → ℕ)
      → Emits IsPair body
          (goes_on key other id min_id max_id)
          (out_other key other id min_id max_id)
      → Breaks IsPair body (goes_on key other id min_id max_id)
      → (c : Column) (ps : List (ℕ × ℕ)) (offset : Option ℕ) (t : Buffer) → Holds c ps
      → Ascend2 key other ps
      → IsValid t
      → IsFirst key id ps offset
      → (u : Buffer) × (scan_from body c offset t ≡ some u)
        × Inserted t u (collect (pick key other id min_id max_id) ps)
  unfolding scan_from
  one_lem body key other emits breaks c ps offset t h s v (absent low) = (
    t,
    refl,
    subst (λ ids. Inserted t t ids) (sym (pick_absent key other id min_id max_id ps low))
        (Inserted-none t v),
  )
  one_lem body key other emits breaks c ps offset t h s v (present before after e at low high) =
      let here : Holds c (before ++ after) = subst (λ qs. Holds c qs) e h in
      let (u, runs, ins) =
        scan_from_lem IsPair body (goes_on key other id min_id max_id)
          (out_other key other id min_id max_id) emits breaks c before after t here
          (All-right IsPair before after here.words) v in
      let found =
        pick_lem key other id min_id max_id before after low high
          (subst (λ qs. Ascend2 key other qs) e s)
        ∙ ap (collect (pick key other id min_id max_id)) (sym e) in
      (u, ap (λ k. scan_from body c k t) at ∙ runs, subst (λ ids. Inserted t u ids) found ins)

  other_x-Emits :
      Emits IsPair
        (other_of_x alloc id min_id max_id)
        (goes_on key_x key_sum id min_id max_id)
        (out_other key_x key_sum id min_id max_id)
  unfolding Emits other_of_x
  other_x-Emits x y c rest t fits low v test =
      let (middle, read, then_y, _, _) =
        read-get_insert_chars x y c rest (omega arith) (omega arith) low in
      let (u, e, ins) = insert_id-Inserted alloc law t (x + y) v in
      elim (Bool-cases (ltb (x + y) min_id)) [
        | inl below ↦ rw below (t, ground arith, Inserted-none t v)
        | inr above ↦ rw above (u, ground arith, ins)
      ]

  other_x-Breaks :
      Breaks IsPair (other_of_x alloc id min_id max_id) (goes_on key_x key_sum id min_id max_id)
  unfolding Breaks other_of_x
  other_x-Breaks x y c rest t fits low test =
      let (middle, read, then_y, _, _) =
        read-get_insert_chars x y c rest (omega arith) (omega arith) low in
      ground arith

  other_sum-Emits :
      Emits IsPair
        (other_of_sum alloc id min_id max_id)
        (goes_on key_sum key_x id min_id max_id)
        (out_other key_sum key_x id min_id max_id)
  unfolding Emits other_of_sum
  other_sum-Emits x y c rest t fits low v test =
      let (middle, read, then_y, _, _) =
        read-get_insert_chars x y c rest (omega arith) (omega arith) low in
      let (u, e, ins) = insert_id-Inserted alloc law t x v in
      elim (Bool-cases (ltb x min_id)) [
        | inl below ↦ rw below (t, ground arith, Inserted-none t v)
        | inr above ↦ rw above (u, ground arith, ins)
      ]

  other_sum-Breaks :
      Breaks IsPair (other_of_sum alloc id min_id max_id) (goes_on key_sum key_x id min_id max_id)
  unfolding Breaks other_of_sum
  other_sum-Breaks x y c rest t fits low test =
      let (middle, read, then_y, _, _) =
        read-get_insert_chars x y c rest (omega arith) (omega arith) low in
      ground arith

  pub search_other_lem :
      (ready : Buffer → Buffer) (index : Column → ColumnIndex) (unset : ℕ) (m : Manager)
      (ks : List (ℕ × ℕ)) (f : Finder) (buffer : Buffer)
      → IsPrepared ready
      → Stores m ks
      → IsPosition index unset m ks id
      → IsReady f
      → buffer.size_per_page ≡ page_ids
      → (g : Finder) × (b : Buffer) × (search_other alloc index unset ready m id min_id max_id f
            buffer
          ≡ some (g, b))
        × IsReady g
        × (contents b ≡ others id min_id max_id ks)
  unfolding search_other
  search_other_lem ready index unset m ks f buffer prepared s at blocks page =
      let runs_low = at.runs_first in
      let runs_high = at.runs_second in
      let (tv, te, tn) = prepared f.xy_temp blocks.xy in
      let (sv, se, sn) = prepared f.x_temp blocks.x in
      let (xy, runs_xy, ixy) =
        one_lem (other_of_x alloc id min_id max_id) key_x key_sum other_x-Emits other_x-Breaks
          m.first (low_pairs ks) at.first (ready f.xy_temp) s.low (low_pairs-Ascend2 ks s.ordered)
          tv at.low in
      let (x, runs_x, ix) =
        one_lem (other_of_sum alloc id min_id max_id) key_sum key_x other_sum-Emits other_sum-Breaks
          m.second (high_pairs ks) at.second (ready f.x_temp) s.high
          (high_pairs-Ascend2 ks s.ordered) sv at.high in
      (
        record { x_temp = x; xy_temp = xy },
        merge_buffer alloc (format 1 buffer) x xy,
        ground arith,
        record { x = IsValid-IsBlock x ix.valid; xy = IsValid-IsBlock xy ixy.valid },
        merge_buffer-ids alloc law (format 1 buffer) x xy (format_lem 1 buffer ∙ page)
              (format-id_count 1 buffer) (ix.same_count ∙ sn) (ixy.same_count ∙ tn)
              (inside x ix.valid) (inside xy ixy.valid)
            ∙ ap₂ merge_ids
                (ix.filled ∙ ap (λ k. k ++ collect (pick_high id min_id max_id) (high_pairs ks)) se)
                (ixy.filled ∙ ap (λ k. k ++ collect (pick_low id min_id max_id) (low_pairs ks)) te)
            ∙ merge_ids-others id min_id max_id ks s.ordered,
      )
