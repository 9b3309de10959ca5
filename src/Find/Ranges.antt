-- ===== src/Find/Ranges.antt =====
-- TripleBit/FindEntityID.cpp: the searches within bounds on the IDs, and those with a tag.
-- `getChunkPosByID` is `get_offset_by_id` on the index of a column. The variable `offset` holds `unset` before
-- the first call, since the searches do not initialise it.
use mgtag.Prelude.{
  ℕ, ◌-◌, ◌^◌, Bool, true, false, List, Option, none, some, ltb, leb, ◌==◌, ◌&&◌, if◌then◌else◌,
  ◌>>=◌,
}
use mgtag.Chunk.{read_x_id, read_y_id, skip_y}
use mgtag.Bitmap.{Column, Manager, Bitmap, find_manager}
use mgtag.LineIndex.Offset.{ColumnIndex, by_x, by_sum, get_offset_by_id}
use mgtag.Buffer.{Buffer, empty, insert_id, append_other}
use mgtag.Buffer.Combine.{merge_buffer}
use mgtag.Find.{
  Turn, more, halt, scan, scan_from, sum, Finder, prepare, format, insert2,
  find_subject_id_by_predicate, find_object_id_by_predicate,
  find_subject_id_and_object_id_by_predicate, find_object_id_and_subject_id_by_predicate,
}

-- `offset` after a call, which NOT_FOUND leaves as it was
unfoldable pub carried : ℕ → Option ℕ → ℕ
carried unset none = unset
carried unset (some offset) = offset

-- UINT_MAX
abbrev pub uint_max : ℕ
uint_max = 2 ^ 32 - 1

abbrev pub Body : Type 0
Body = List ℕ → Buffer → Option Turn

-- findSubjectIDByPredicateAndObject does not set the sort key of its temporary buffers
unfoldable pub prepare_ids : Buffer → Buffer
prepare_ids b = record (empty b) { id_count = 1 }

module _ (alloc : ℕ → List ℕ) where
  -- The loops of findSubjectIDByPredicate. In the first one `continue` leaves the pointer at the y.
  unfoldable pub subject_x_between : ℕ → ℕ → Body
  subject_x_between min_id max_id reader t = do
    (x, r) ← read_x_id reader
    if ltb x min_id
        then some (more r t)
        else if leb x max_id
        then (do u ← insert_id alloc t x; s ← skip_y r; some (more s u))
        else some (halt t)

  unfoldable pub subject_sum_between : ℕ → ℕ → Body
  subject_sum_between min_id max_id reader t = do
    (x, r) ← read_x_id reader
    (y, s) ← read_y_id r
    if ltb (sum x y) min_id
        then some (more s t)
        else if leb (sum x y) max_id
        then (do u ← insert_id alloc t (sum x y); some (more s u))
        else some (halt t)

  -- the loops of findObjectIDByPredicate
  unfoldable pub object_x_up_to : ℕ → Body
  object_x_up_to max_id reader t = do
    (x, r) ← read_x_id reader
    if ltb max_id x
        then some (halt t)
        else (do u ← insert_id alloc t x; s ← skip_y r; some (more s u))

  unfoldable pub object_sum_up_to : ℕ → Body
  object_sum_up_to max_id reader t = do
    (x, r) ← read_x_id reader
    (y, s) ← read_y_id r
    if ltb max_id (sum x y)
        then some (halt t)
        else (do u ← insert_id alloc t (sum x y); some (more s u))

  -- the loops of findSubjectIDByPredicateAndObject and findObjectIDByPredicateAndSubject
  unfoldable pub other_of_x : ℕ → ℕ → ℕ → Body
  other_of_x id min_id max_id reader t = do
    (x, r) ← read_x_id reader
    if x == id
        then (do
          (y, s) ← read_y_id r
          if ltb (sum x y) min_id
              then some (more s t)
              else if leb (sum x y) max_id
              then (do u ← insert_id alloc t (sum x y); some (more s u))
              else some (halt t))
        else some (halt t)

  unfoldable pub other_of_sum : ℕ → ℕ → ℕ → Body
  other_of_sum id min_id max_id reader t = do
    (x, r) ← read_x_id reader
    (y, s) ← read_y_id r
    if sum x y == id
        then (if ltb x min_id
            then some (more s t)
            else if leb x max_id
            then (do u ← insert_id alloc t x; some (more s u))
            else some (halt t))
        else some (halt t)

  -- the loops of findSubjectIDAndObjectIDByPredicate and findObjectIDAndSubjectIDByPredicate
  unfoldable pub pair_x_up_to : ℕ → Body
  pair_x_up_to max_id reader t = do
    (x, r) ← read_x_id reader
    if ltb max_id x
        then some (halt t)
        else (do (y, s) ← read_y_id r; u ← insert2 alloc t x (sum x y); some (more s u))

  unfoldable pub pair_sum_up_to : ℕ → Body
  pair_sum_up_to max_id reader t = do
    (x, r) ← read_x_id reader
    (y, s) ← read_y_id r
    if ltb max_id (sum x y)
        then some (halt t)
        else (do u ← insert2 alloc t (sum x y) x; some (more s u))

  -- the loops that add the predicate to each ID, behind it or before it
  unfoldable pub tagged_x : Bool → ℕ → Body
  tagged_x behind id reader t = do
    (x, r) ← read_x_id reader
    u ← (if behind then insert2 alloc t x id else insert2 alloc t id x)
    s ← skip_y r
    some (more s u)

  unfoldable pub tagged_sum : Bool → ℕ → Body
  tagged_sum behind id reader t = do
    (x, r) ← read_x_id reader
    (y, s) ← read_y_id r
    u ← (if behind then insert2 alloc t (sum x y) id else insert2 alloc t id (sum x y))
    some (more s u)

  unfoldable pub tagged_x_up_to : ℕ → ℕ → Body
  tagged_x_up_to id max_id reader t = do
    (x, r) ← read_x_id reader
    if ltb max_id x
        then some (halt t)
        else (do u ← insert2 alloc t x id; s ← skip_y r; some (more s u))

  unfoldable pub tagged_sum_up_to : ℕ → ℕ → Body
  tagged_sum_up_to id max_id reader t = do
    (x, r) ← read_x_id reader
    (y, s) ← read_y_id r
    if ltb max_id (sum x y)
        then some (halt t)
        else (do u ← insert2 alloc t (sum x y) id; some (more s u))

  -- a search without bounds whose two results are appended to the buffer
  unfoldable pub search_tagged : Bool → ℕ → Manager → Finder → Buffer → Option (Finder × Buffer)
  search_tagged behind id m f buffer = do
    x ← scan (tagged_x behind id) m.first (prepare 2 f.x_temp)
    xy ← scan (tagged_sum behind id) m.second (prepare 2 f.xy_temp)
    a ← append_other alloc (format 2 buffer) x
    b ← append_other alloc a xy
    some (record { x_temp = x; xy_temp = xy }, b)

  module _ (index : Column → ColumnIndex) (unset : ℕ) where
    -- a search within bounds, from the positions of an ID on
    unfoldable pub search_from :
        ℕ → Body → Body → Manager → ℕ → Finder → Buffer → Option (Finder × Buffer)
    search_from n first second m id f buffer = do
      low ← get_offset_by_id by_x (index m.first) m.first id unset
      x ← scan_from first m.first low (prepare n f.x_temp)
      high ← get_offset_by_id by_sum (index m.second) m.second id (carried unset low)
      xy ← scan_from second m.second high (prepare n f.xy_temp)
      some (record { x_temp = x; xy_temp = xy }, merge_buffer alloc (format n buffer) x xy)

    -- The searches of one ID, whose temporary buffers `ready` prepares: the first column fills XYTemp, and the second one XTemp
    unfoldable pub search_other :
        (Buffer → Buffer) → Manager → ℕ → ℕ → ℕ → Finder → Buffer → Option (Finder × Buffer)
    search_other ready m id min_id max_id f buffer = do
      low ← get_offset_by_id by_x (index m.first) m.first id unset
      xy ← scan_from (other_of_x id min_id max_id) m.first low (ready f.xy_temp)
      high ← get_offset_by_id by_sum (index m.second) m.second id (carried unset low)
      x ← scan_from (other_of_sum id min_id max_id) m.second high (ready f.x_temp)
      some (record { x_temp = x; xy_temp = xy }, merge_buffer alloc (format 1 buffer) x xy)

    unfoldable pub search_tagged_from :
        ℕ → ℕ → ℕ → Manager → Finder → Buffer → Option (Finder × Buffer)
    search_tagged_from id min_id max_id m f buffer = do
      low ← get_offset_by_id by_x (index m.first) m.first min_id unset
      x ← scan_from (tagged_x_up_to id max_id) m.first low (prepare 2 f.x_temp)
      high ← get_offset_by_id by_sum (index m.second) m.second min_id (carried unset low)
      xy ← scan_from (tagged_sum_up_to id max_id) m.second high (prepare 2 f.xy_temp)
      a ← append_other alloc (format 2 buffer) x
      b ← append_other alloc a xy
      some (record { x_temp = x; xy_temp = xy }, b)

    module _ (page : ℕ → List ℕ) (b : Bitmap) where
      unfoldable pub find_subject_id_and_predicate_id_between :
          ℕ → ℕ → ℕ → Finder → Buffer → Option (Finder × Buffer)
      find_subject_id_and_predicate_id_between id min_id max_id =
          search_tagged_from id min_id max_id (find_manager page b.by_subject id)

      unfoldable pub find_object_id_and_predicate_id_between :
          ℕ → ℕ → ℕ → Finder → Buffer → Option (Finder × Buffer)
      find_object_id_and_predicate_id_between id min_id max_id =
          search_tagged_from id min_id max_id (find_manager page b.by_object id)

      unfoldable pub find_subject_id_between :
          ℕ → ℕ → ℕ → Finder → Buffer → Option (Finder × Buffer)
      find_subject_id_between id min_id max_id f buffer =
          if (min_id == 0) && (max_id == uint_max)
          then find_subject_id_by_predicate alloc page b id f buffer
          else search_from 1 (subject_x_between min_id max_id) (subject_sum_between min_id max_id)
              (find_manager page b.by_subject id) min_id f buffer

      unfoldable pub find_object_id_between : ℕ → ℕ → ℕ → Finder → Buffer → Option (Finder × Buffer)
      find_object_id_between id min_id max_id f buffer =
          if (min_id == 0) && (max_id == uint_max)
          then find_object_id_by_predicate alloc page b id f buffer
          else search_from 1 (object_x_up_to max_id) (object_sum_up_to max_id)
              (find_manager page b.by_object id) min_id f buffer

      unfoldable pub find_subject_id_and_object_id_between :
          ℕ → ℕ → ℕ → Finder → Buffer → Option (Finder × Buffer)
      find_subject_id_and_object_id_between id min_id max_id f buffer =
          if (min_id == 0) && (max_id == uint_max)
          then find_subject_id_and_object_id_by_predicate alloc page b id f buffer
          else search_from 2 (pair_x_up_to max_id) (pair_sum_up_to max_id)
              (find_manager page b.by_subject id) min_id f buffer

      unfoldable pub find_object_id_and_subject_id_between :
          ℕ → ℕ → ℕ → Finder → Buffer → Option (Finder × Buffer)
      find_object_id_and_subject_id_between id min_id max_id f buffer =
          if (min_id == 0) && (max_id == uint_max)
          then find_object_id_and_subject_id_by_predicate alloc page b id f buffer
          else search_from 2 (pair_x_up_to max_id) (pair_sum_up_to max_id)
              (find_manager page b.by_object id) min_id f buffer

      unfoldable pub find_subject_id_by_predicate_and_object :
          ℕ → ℕ → ℕ → ℕ → Finder → Buffer → Option (Finder × Buffer)
      find_subject_id_by_predicate_and_object id object_id =
          search_other prepare_ids (find_manager page b.by_object id) object_id

      unfoldable pub find_object_id_by_predicate_and_subject :
          ℕ → ℕ → ℕ → ℕ → Finder → Buffer → Option (Finder × Buffer)
      find_object_id_by_predicate_and_subject id subject_id =
          search_other (prepare 1) (find_manager page b.by_subject id) subject_id

  module _ (page : ℕ → List ℕ) (b : Bitmap) where
    unfoldable pub find_subject_id_and_predicate_id : ℕ → Finder → Buffer → Option (Finder × Buffer)
    find_subject_id_and_predicate_id id = search_tagged true id (find_manager page b.by_subject id)

    unfoldable pub find_predicate_id_and_subject_id : ℕ → Finder → Buffer → Option (Finder × Buffer)
    find_predicate_id_and_subject_id id = search_tagged false id (find_manager page b.by_subject id)

    unfoldable pub find_object_id_and_predicate_id : ℕ → Finder → Buffer → Option (Finder × Buffer)
    find_object_id_and_predicate_id id = search_tagged true id (find_manager page b.by_object id)

    unfoldable pub find_predicate_id_and_object_id : ℕ → Finder → Buffer → Option (Finder × Buffer)
    find_predicate_id_and_object_id id = search_tagged false id (find_manager page b.by_object id)
