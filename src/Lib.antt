-- ===== src/Lib.antt =====
-- MGTag answers reachability queries on large directed acyclic graphs by a labelling index, and
-- stands on the storage layer of the TripleBit RDF store. This library models the index and its
-- queries, the way of a fact from the sorted triples into the bitmaps and out of them by the
-- searches, and those other parts of the storage layer that have an algorithm of their own.
--
-- Reach (Matrix/reach.h, Matrix/reach.cpp): Graph is the memory image of the adjacency rows and
-- `DAG_getOffset`; Traverse is the breadth first search `tranverse`; Labels holds the label
-- arrays; Query has `same_layer_tree_reach`, `down_layer_to_up_layer_without_cross_located`,
-- `query`, and the part of `process` that filters and answers; Build has `construct_index` with
-- its steps `init_degree`, `get_forward_root_vertices`, `get_backward_root_vertices`,
-- `pre_process`, `pre_process_cross`, `cal_cross_degree`, `decode`, `cal_index`, `is_excp`,
-- `cal_excp_and_cross_arr`, `is_reachable` and `same_tree_reach`. The queries read what Build
-- writes; the laws that they need of it are the record IsIndexOf, and Answers joins the two. Its
-- other files are for the proofs: Counts, Roots, Sums, Edge, Kahn, Rows, Front, Unseen,
-- Positions, Levels, Topology and Start are about Ldown and TopoOrder of the first pass, Heights
-- about `cal_index`, and Reversed and Passes join the two passes. The modules under Sweep are
-- about the marks of an edge, a pass over the vertices of one layer, the layers one after the
-- other, and the whole of `construct_index`; those under Number about the counts of
-- `cal_cross_degree` and the numbering of `decode`. A layer that is crossed loses a source in
-- each round, and a tree or a pass takes each vertex at most once, so that max_id + 1 rounds,
-- and max_id + 2 steps in each loop, are enough. qsort is a parameter, which keeps the members
-- and repeats none.
--
-- Chunk (TripleBit/BitmapBuffer.h, TripleBit/BitmapBuffer.cpp): the pair of an ID and a
-- difference as bytes, `getLen`, `writeXId`, `writeYId`, `getInsertChars`, `readXId`, `readYId`,
-- `skipId`, `skipForward`, `skipBackward`, and `generateXY`, which
-- TripleBit/TripleBitBuilder.cpp has as well. readXId and readYId are those that are built
-- without WORD_ALIGN.
--
-- Bitmap (TripleBit/BitmapBuffer.h, TripleBit/BitmapBuffer.cpp): ChunkManager with its two
-- columns, `isPtrFull`, `resize`, `insertXY`, and BitmapBuffer with `getChunkManager` and
-- `insertTriple`. The pages of a column are one list of bytes, in the order in which `flush` and
-- `load` lay them out; what `getPage` delivers is a parameter.
--
-- LineIndex (TripleBit/LineHashIndex.h, TripleBit/LineHashIndex.cpp): `searchChunk`, by which
-- the line index finds the part of a column where an ID begins, and in LineIndex/Offset
-- `getOffsetByID`, which searches that part for the first pair of an ID. The tables and lines
-- are data of any content; what `floor` and `ceil` give on a line is a function, of which
-- nothing is assumed. The bytes before a column, which getOffsetByID reads as well, are data
-- too.
--
-- Builder (TripleBit/TripleBitBuilder.cpp): the two passes of `resolveTriples` over the facts
-- that the sorter leaves. It calls Bitmap for each new fact; the calls of `addStatis` are a log.
--
-- Find (TripleBit/FindEntityID.h, TripleBit/FindEntityID.cpp): the searches in the columns of
-- one predicate, without bounds here and with bounds in Find/Ranges. A search fills two buffers
-- by Buffer, from the two columns of Bitmap by Chunk, and ends with `mergeBuffer`, which is
-- Buffer/Combine. The searches with bounds call `getOffsetByID` of LineIndex/Offset on the index
-- of each column, and hand on the variable that it leaves unset. They are right where it gives
-- the first pair not below the ID, which is IsFirst of Find/Positions; for an ID that the column
-- lacks it may give another pair. Builder/Statis is about the log of addStatis. Builder/Answers,
-- Builder/Bounds, Builder/Tagged and Builder/Stored join the searches with `resolveTriples`.
--
-- Compact (TripleBit/EntityIDBuffer.cpp, TripleBit/SortMergeJoin.cpp): the filtering of a block
-- of records in place through a page, which modifyByFlag, Merge1 and Merge2 share.
--
-- Buffer (TripleBit/EntityIDBuffer.h, TripleBit/EntityIDBuffer.cpp): the growable buffer of IDs,
-- `insertID`, `insert_uniqueID`, the three appends, `operator=`; Buffer/Filter has
-- `modifyByFlag`, Buffer/Union `mergeSingleBuffer`, Buffer/Combine `mergeBuffer`, Buffer/Unique
-- `uniqe`, and Buffer/Search the binary searches. A pointer into the block is an offset, or
-- `none` once the block has been replaced under it. What malloc and realloc deliver is a
-- parameter.
--
-- Join (TripleBit/SortMergeJoin.cpp): `Merge1` and `Merge2`, on two buffers that are different
-- objects.
--
-- TempFile (TripleBit/TempFile.h, TripleBit/TempFile.cpp): the write buffer, the codec of IDs
-- and the comparisons that the sorter uses.
--
-- Lexer (TripleBit/SPARQLLexer.h, TripleBit/SPARQLLexer.cpp): `getNext`, `unget`,
-- `getTokenValue` and `isKeyword`.
--
-- Stack (Matrix/stack.h): the stack with `push`, `pop` and its growing and shrinking block.
--
-- Prelude: tests on native numbers, lists measured by them, sorted lists, and the order.
--
-- Loops run on fuel where they are not structural: the search on one more than the number of
-- vertices, since each is queued at most once; pre_process on as many rounds as there are
-- vertices and one more, since each reads one that was not read; appendBuffer1 on one more than
-- the IDs to append, since each page adds some; the join on one more than the records of its
-- first buffer, each round taking one; TempFile.write on two more than the bytes, since only the
-- first round may take none; the lexer on the length of its input; the codec of a chunk on more
-- than the ID, which each round divides; a search on one more than the bytes of its column,
-- since each round takes some; the halving in getOffsetByID on 130 rounds, since its bounds have
-- 32 bits and each round halves what lies between them; the walk back in it on the bytes of the
-- memory. IDs of 32 bits are kept within bounds by hypothesis where the code cuts them.
--
-- Not modelled: threads, the operating system, memory mapped files, the sorters, the word
-- aligned bit vectors, how the line index is built, its other searches, the hash indexes, the
-- statistics, the searches of FindEntityID that start from the statistics, the parsers, the
-- graph engine and the main programs. Of the laws of IsIndexOf those in the record IsCovered of
-- Reach/Answers, about the intervals and the exception and cross lists, are a hypothesis on what
-- construct_index leaves: that it meets them is open.
pub mod Prelude
pub mod Chunk
pub mod Bitmap
pub mod LineIndex
pub mod Builder
pub mod Find
pub mod Reach
pub mod Compact
pub mod Buffer
pub mod Join
pub mod TempFile
pub mod Lexer
pub mod Stack
