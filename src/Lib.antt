-- ===== src/Lib.antt =====
-- libschwa: the byte-level core and the query language of the library, modelled and verified.
--
-- The program (src/lib/schwa, from where the paths below start) reads and writes documents as
-- streams of MessagePack values and asks queries of them. Its bottom layer is a pair of template
-- parameters, a byte source IN and a byte sink OUT, which every wire function takes; above it stand the
-- wire functions, and above those the document streams, queries and applications.
--
-- Which file models what:
--   Prelude        shared names, Boolean tests, lists over the native numbers, int64_t and the
--                  patterns of signed words (Int), masks on bytes (Bits) and on any number (Digits).
--   Exec           functions that change an object and may throw: the state comes back beside the
--                  value or the error. msgpack/exception.h.
--   Io.Stream      the interfaces In and Out: what the wire functions ask of a source and a sink.
--   Io.Effects     rules that put together what a function reads or writes from its parts.
--   Io.Budget      rules that put together how many bytes a function may still write.
--   Io.ArrayReader io/array_reader.{h,cc}: get, peek, read, ignore; fills In.
--   Io.WriteBuffer io/write_buffer.{h,cc}: put, write, write_zerocopy, copy_to, copy_from with
--                  next_block, next_pool, require_pool; fills Out (io/traits.h).
--   Io.UnsafeArrayWriter
--                  io/unsafe_array_writer.h: put, write; fills Out.
--   Msgpack        msgpack/enums.h (Enums), the header bytes of msgpack/wire.h (Header), TABLE of
--                  msgpack/wire.cc and header_type (Table), the words of port.h.in and of _read_be8
--                  to _write_be64 (Endian), and msgpack/wire_impl.h: the writers (Write), the
--                  readers (Read), strings (Text), read_lazy (Lazy) and read_dynamic with the trees of
--                  msgpack/dynamic.h (Dynamic).
--   Pool           pool.h: alloc, which hands out memory from blocks, and its counters; Regions and
--                  Runs say which bytes it hands out.
--   BlockVector    containers/block_vector.h and block_vector_impl.h: a vector in blocks that do not
--                  move. Elements, Addresses, References and Walks say what its calls do to the
--                  elements, to their addresses and under its iterators.
--   Unicode        unicode.{h,cc}: read_utf8, read_utf8_backwards, write_utf8, to_utf8 (Utf8) and the
--                  iterators of UTF8Decoder with from_utf8 (Decoder).
--   Query          dr/query.{h,cc}: tokens and expressions (Syntax), the grammar (Grammar), the parser on
--                  `_tokens` (Parser; Ensures, Sound, Steps and Complete set it against the grammar),
--                  numbers in texts (Numbers), int64_t arithmetic (Int64), Value, EvalContext (Context),
--                  VariableExpr with its loop over a store (Variable), BinaryOperatorExpr (Operators),
--                  FunctionExpr (Functions), and eval of expressions and of the Interpreter (Eval, whose
--                  children say what evaluation keeps and gives). dr/runtime.h: what a query reads of it.
--   Documents      dr/reader.cc and dr/writer.cc for documents that are held lazily, over any In and Out:
--                  RTManager of dr/runtime.h (Runtime), Writer::write (Writer) and Reader::read (Reader);
--                  RoundTrip and Bounds say how they fit together and what a reader may return.
--   Tokenizer      tokenizer/tokenizer_state.h (State, over the calls of tokenizer/stream.h in Stream),
--                  tokenizer/tokenizer.cc (Actions) and tokenize over a buffer of tokenizer_gen.cc (Run),
--                  whose machine is a parameter: the calls that it makes. Sentences and
--                  Nesting say what the stream is given, with what Actions keeps of State (Kept).
--   Fields         the fields of registered classes: IStore, Store and BlockStore of dr/istore.h and dr/fields.h
--                  (Stores), WireTraits of dr/wire.h for each type of a field, with write_field (Values).
--   Instances      write_instance and write_lazy of dr/writer.cc, and the loop of Reader::read over the fields of
--                  one instance, for a class that registers some of its fields, with the loops over the
--                  instances of a store. Entries, Members, Lazies, Written and Whole say what one field,
--                  the members, the lazy part, the written fields and one instance come to, Groups says it
--                  of a store, and Room of memory.
--   Tests          runs, and the theorems at concrete inputs.
-- The wire functions are stated over any In and any Out, so that each theorem serves an ArrayReader
-- with a WriteBuffer as well as any other pair that keeps the laws.
--
-- How the code is read:
--   * A byte is a number below 256, a word is a number, and a narrowing cast is a remainder. A float
--     or a double is its bit pattern. A signed integer is an integer with its range stated.
--   * `in.get()` returns `none` for EOF. A failed assert and a thrown exception are errors of
--     Exec; the text of an exception is not kept. Where a short input leaves part of a buffer unwritten, the
--     code goes on with what was there, which is any bytes that the source's `unwritten` gives; for the
--     ArrayReader of the tests and of the queries it gives zeros.
--   * A WriteBuffer's block holds its content as a list, and its place in a pool; that the blocks lie in
--     bounds and apart is part of what a valid buffer is (WriteBuffer/Places), so that what is stored in one
--     block changes no other; write_zerocopy keeps what the caller's
--     memory holds at the call, so the caller must leave that memory alone while the buffer lives.
--   * Pool::alloc's calls of malloc have an argument that says whether there is memory; a region is
--     the index of a block and an offset in it. sizeof(Block) is not counted, and sizes are below 2^63.
--   * A block of a BlockVector has an address, which malloc chose; that malloc's blocks lie apart is
--     a hypothesis of what is proved of addresses.
--   * read_lazy takes fuel, which bounds how deep values lie in one another; one more than the
--     number of bytes left is enough, as its entry below says. read_dynamic takes fuel too, of which
--     the same is enough; the memory that a pool gives for its tree is not counted.
--     The loops over iterators take fuel as well, as many rounds as their entries say.
--   * The parser takes fuel, which bounds how deep its calls nest; six for each token and six more are
--     enough. Queries see a store by its lazy bytes, which read_dynamic decodes. A C string is the list
--     of its bytes up to the NUL. std::regex is two parameters: which texts compile, and the length of
--     the match that a search finds. What C++ leaves undefined (an overflow, a division by 0, an index
--     out of range, a read of the wrong member of a union) is an error of its own.
--   * An annotation is known by its address, and a store says which index has which address. The members of
--     an object are numbered, and a field stands in its schema at its field_id, as merge_rt leaves it. A class
--     of a lazily held document is lazy unless it is called __meta__, as the reader has it.
-- Not modelled: the generated tables and machines (unicode_gen.cc, tokenizer_gen.cc, query_gen.cc),
-- the vendored unit-test library, and what is pure input and output. The streams of the tokenizer,
-- tokenize over a Source, configuration and clustering stand outside this development so far, and so does
-- what registered classes add to the headers of a document stream (merge_rt and build_rt of dr/runtime.cc, the
-- checks of registered fields in dr/reader.cc). A field is a Slice of 32-bit or 64-bit numbers, since shorter
-- ones are promoted to int.
pub mod BlockVector
pub mod Documents
pub mod Exec
pub mod Fields
pub mod Instances
pub mod Io
pub mod Msgpack
pub mod Pool
pub mod Prelude
pub mod Query
pub mod Tests
pub mod Tokenizer
pub mod Unicode
