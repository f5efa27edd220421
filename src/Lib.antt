-- ===== src/Lib.antt =====
-- Verification library of the hybrid index of hybrid_index/.
--
-- An index (hybrid_index/mtIndexAPI.hh, `mt_index`) keeps a small dynamic tree, which takes the
-- inserts, and a large compact static trie. When the dynamic tree has a tenth of the entries of the
-- static trie, and at least a hundred, it is merged into the static trie.
--
--   * Common: the libraries' names, Boolean tests (Common/Tests), lists as arrays (Common/Lists) and
--     code that may fault (Common/Run).
--   * Key: hybrid_index/masstree_key.hh and string_slice.hh, the cursor's key, its slice and
--     `key_compare`. Key/Compare has the order of slots that it decides; Key/Slice is about the bytes
--     behind a slice.
--   * Massnode: hybrid_index/masstree_struct.hh, the nodes of the static trie (`massnode`). The
--     parallel arrays of a node are one list of slots. Massnode/Search and Massnode/Order have the
--     binary searches of hybrid_index/masstree_get.hh, Massnode/Chains the order of concrete nodes.
--   * Trie: hybrid_index/masstree_get.hh, the static trie and its point cursor `stcursor` (`find`,
--     `remove`, `update`). Trie/Holds says what a trie stores without its searches. Trie/Round is one
--     round of the walk, Trie/Write and Trie/Others what a write to one slot changes. Trie/Find,
--     Trie/Update and Trie/Remove have the theorems on the operations, Trie/Siblings and
--     Trie/Multivalue two faults of the code, Trie/Destroy is `destroy`, which frees the nodes, with
--     its rounds as fuel: as many as there are nodes are enough. Trie/Examples has concrete runs.
--   * Index: hybrid_index/mtIndexAPI.hh, `mt_index`, its state and its operations on one table.
--     Index/Interface has the operations of the two tables, the laws of the dynamic one, a
--     library's, and what a removal and an update do in a static one that is well formed;
--     Index/Tries shows the latter of the static trie and its cursor. Index/Counter has the `int`s
--     `ic` and `sic`, whose overflow is taken to wrap around, as 32-bit patterns. Index/Unique has
--     the operations of an index of unique keys, and its children the theorems on them by operation;
--     Index/Multi those of an index with several values for a key, which stand side by side in one
--     row; Index/Block the search for a value in a row, with the row's length as fuel, which covers
--     the bytes that it compares; Index/Replace the replacement of values, with the lock that
--     `find_insert` takes. Index/Listed has tables as lists, an instance of the interface, and
--     Index/Examples runs and the theorems at them. Both settings of SECONDARY_INDEX_TYPE are there;
--     the bloom filter, which USE_BLOOM_FILTER turns off, is not called. Index/Scan has `advance`
--     and `advance_nuv`, over the scans of the two tables as an interface. Index/Iterate has
--     `get_first`, `get_upper_bound` and `get_next`, with the scan cursor of the static trie itself;
--     Index/Iterate/Walk is about whole iterations, Index/Iterate/Starts about faults behind a
--     start.
--   * Bloom: hybrid_index/mtIndexAPI.hh, the bloom filter and its hash, the filter's bytes as a
--     list of bits.
--   * Merge: hybrid_index/masstree_get.hh, `stcursor_merge`, which merges a trie into another: the
--     loops of `merge_nodes`, `add_item_to_node` and `create_node` on the slots, whose fuel is the
--     number of slots, and the tasks that they leave. Merge/Arrays has the loops in the arrays of
--     the node that is grown, one array of slots for all of them, and Merge/InPlace compares the
--     two. Merge/Tries does the tasks, as a recursion on the layers in place of the queue, with a
--     fault where the last task of the queue gets a parent that may be another's; Merge/Tries/Steady
--     is about merges without that. Merge/Holds says what slots and tasks hold. Merge/Meet is about
--     two entries of one slice and length (Merge/Values, Merge/Below), Merge/Slots and Merge/Nodes
--     about the loops, Merge/Union and Merge/Keep about the node that they make, Merge/Layers and
--     Merge/Node about its layers, Merge/Entries about single entries, Merge/Whole and Merge/Find
--     about the tries, Merge/Losses about a fault of the code.
--   * Cursor: hybrid_index/masstree_tcursor.hh and masstree_get.hh, the scan cursor
--     `stcursor_scan` of the static trie with its stacks. Cursor/Next is about a step to the next
--     slot, Cursor/Leftmost about the way down, Cursor/Start about the searches that an iteration
--     starts with, Cursor/After about what a run leaves, Cursor/Bytes about the keys that it gives,
--     Cursor/Ends and Cursor/Advance about its faults.
--   * Drivers: microbench.hh, the keys of fixed length and the comparators that the drivers give
--     to `std::map` and the B+ tree. Drivers/Order compares them with the order of byte strings.
--     Drivers/Allocator is allocatortracker.hh, the allocator that counts the bytes in use.
--   * Build: hybrid_index/masstree_get.hh, `buildStatic` and its variants, with the queue of
--     layers. Build/Convert makes the trie layer by layer, and Build/Rounds and Build/Queue compare
--     the two. The rounds of the queue are fuel: as many as there are layers are enough. Build/Holds
--     says what a dynamic tree holds, Build/Whole and Build/Trees what the made trie holds,
--     Build/Find what lookups find in it. Build/Quick is `buildStatic_quick`, which writes the slots
--     of its nodes in place, Build/Runs about its loops and Build/Short a comparison with
--     `buildStatic`. Build/Tables has the calls of hybrid_index/kvrow.hh by which `merge_uv` merges
--     the tables, and Build/Gather the theorem on them.
--
-- A byte is a natural number, a key or value a list of them. Hypotheses say where bytes are below
-- 256. A read or write out of bounds, behind a suffix, of a pointer never set or of the wrong
-- member of a union is `fault`, and so is a pop of an empty vector. The binary search takes the
-- number of slots as fuel, which is enough because each round shortens its range; the walk down the
-- trie recurses on the bound of its layers, which every finite trie has. A cursor's null root is
-- the caller's: no trie is given.
--
-- Not modelled: the dynamic Masstree tree (hybrid_index/masstree.hh, masstree_insert.hh and the
-- like) and stx/, which are copies of other libraries; the allocation of nodes; prefetching; the
-- drivers that time workloads; how a merge goes on after it has given a task a parent that is
-- not its own, which is a fault; the offsets in bytes of a node's arrays, and that a resize
-- during a merge moves a node; the merges and the scan cursors of the tries with several values
-- or values of variable length for a key; the starts and the steps of an iteration over those;
-- the sizes of the index's buffers for keys; the reclamation of memory, statistics and printing.
pub mod Common
pub mod Key
pub mod Massnode
pub mod Trie
pub mod Bloom
pub mod Build
pub mod Cursor
pub mod Drivers
pub mod Index
pub mod Merge
