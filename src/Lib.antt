-- ===== src/Lib.antt =====
-- Caliper, a library for performance introspection: what a program under observation calls to keep
-- context, and the record formats that carry it.
--
-- The program annotates itself; the runtime keeps the current value of every attribute on a blackboard,
-- keeps hierarchical values as nodes of a context tree, and takes snapshots: lists of tree nodes and of
-- immediate (attribute, value) pairs. Snapshots are stored as compressed byte records, which are gathered
-- in growing buffers and sent or flushed later; the nodes travel in a buffer of their own.
--
-- Which module models which code:
--   Vlenc             include/caliper/common/c-util/vlenc.h: `vlenc_u64`, `vldec_u64`
--   Variant           include/caliper/common/cali_variant.h, src/common/cali_variant.c: the tagged value, its
--                     type, its size, packing, and in Convert the conversions and the comparison
--   Node              include/caliper/common/Node.h, as the other parts read it
--   Datum             include/caliper/common/Node.h and src/common/cali_variant.c, as the context tree uses
--                     them: values with their bytes, `cali_variant_eq` and `cali_make_variant`
--   Attribute         src/common/Attribute.cpp: `make_attribute` and the accessors
--   Entry             src/common/Entry.cpp
--   CompressedRecord  src/common/CompressedSnapshotRecord.cpp: `append` in all forms, `save_memmove`, and
--                     in View the decoder
--   PackedBuffer      src/common/SnapshotBuffer.cpp and src/common/NodeBuffer.cpp (Nodes: `pack_node`,
--                     `unpack_node`)
--   SnapshotRecord    src/caliper/SnapshotRecord.cpp: the record of fixed capacity
--   ContextBuffer     src/caliper/ContextBuffer.cpp: the blackboard
--   MemoryPool        src/caliper/MemoryPool.cpp
--   MetadataTree      src/caliper/MetadataTree.cpp: the context tree of one thread, with its bootstrap nodes,
--                     and in Modify the operations that copy and remove
--   Csv               src/common/csv/CsvSpec.cpp, src/common/csv/CsvReader.cpp and the escaping of
--                     src/common/util/write_util.h: records as lines of text
--   CsvWriter         src/common/csv/CsvWriter.cpp: which lines are written, and in which order
--   RecordSelector    src/reader/RecordSelector.cpp and include/caliper/common/util/split.hpp
--   TraceBuffer       src/services/trace/TraceBufferChunk.cpp: the chunks that a trace is kept in
--   Base              lists, memory, bits and tests that the others share
--   Tests             runs on small inputs, and the theorems at concrete inputs
--
-- Conventions. Numbers are unbounded, and where the source's width can be exceeded the wrap-around is written
-- out (`% 2 ^ 64`, `% 256` for a count byte). Bytes are numbers below 256 in a list; memory that a
-- function reads or writes is such a list with a position, and `none` is an access outside it, so a
-- theorem that gives `some` also says that no access is out of bounds. A node pointer is the path from the
-- node to the root, since nodes never change; the null pointer is the empty path. A method that changes its
-- object takes and gives the record of its fields. A method under a lock is one step.
--
-- Loops are structural where they follow a list or a count. The copy loop of `save_memmove` and the loops
-- over blocks of entries run on fuel, the number of bytes or entries left, since each round takes one at
-- least; the theorems about them show that this is enough. `vlenc_u64` recurses on the accessibility of
-- `<`. `recursive_write_node` runs on fuel, for which a rank of the ids is enough by which attributes and
-- parents come before their nodes. Allocation with `new` is a parameter of the buffers
-- (PackedBuffer.Allocator), and the table from ids to nodes one of the decoder. The refinement of the
-- blackboard is stated by what `get` answers; its layout is the predicate ContextBuffer.Regions.IsContext,
-- for a given table of attributes. The context tree is the list of its nodes, and its memory the pool. In
-- it a string or a blob is the list of its bytes, which nobody writes again while a node holds it, so equal
-- values are the ones that `cali_variant_eq` finds equal; the machine is little-endian. The counters of
-- the tree are 32-bit numbers.
--
-- Not modelled: the runtime's public interface and its callbacks, the metadata database, the query
-- language, the aggregation, the formatters, configuration, the measurement services, the tools, the MPI
-- and Fortran bindings, all other printing, and the copies of other projects. Text values are addresses,
-- except in the context tree, in CSV records and in conditions, where a text is the list of its bytes.
pub mod Attribute
pub mod Base
pub mod CompressedRecord
pub mod ContextBuffer
pub mod Csv
pub mod CsvWriter
pub mod Datum
pub mod Entry
pub mod MemoryPool
pub mod MetadataTree
pub mod Node
pub mod PackedBuffer
pub mod RecordSelector
pub mod SnapshotRecord
pub mod Tests
pub mod TraceBuffer
pub mod Variant
pub mod Vlenc
