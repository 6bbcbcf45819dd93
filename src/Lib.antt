-- ===== src/Lib.antt =====
-- Abscom, a C library of data structures with a dynamic runtime: a model of its core in which the
-- functions of the C files are definitions that run, and theorems about them.
--
-- Parts, and the files that model them:
--   Prelude       names shared by all: tests, lists under native indices, C strings, masks
--   Hash          src/abs_hash.c and `dict_hash` of src/abs.c
--   Hashmap       src/abs_hashmap.c: Defs holds the functions (abs_hm_* and abs_hashmap_*, where `assign`
--                 is abs_hashmap_set); Slots, Probe, Place, Invariant, Insert and Resize build up to
--                 Methods, the exported functions against the map that a table stands for, and
--                 Refinement, any sequence of calls against an abstract data type
--   Dynarray      src/abs_dynarray.c: Defs, and Pushing for abs_dynarray_push
--   GrowString    src/abs_string.c (abs_string_*): Defs holds the functions; Growth is about the
--                 capacity, Contents about the text, Uninitialised about strings with no text yet
--   Regex         src/abs_regex.c: Defs holds both matchers and re_match, re_findall and re_sub;
--                 Matching compares the matchers, Longest relates them to an inductive description
--                 of a match, Search is about re_match and Finding about re_findall
--   Itertools     src/abs_itertools.c: Defs, and Streams for what the iterators yield
--   Sort          src/abs_sort.c: Defs and Shifting hold the functions, over the comparison of values;
--                 Rearranging is about runs that only move items, with Exchanging, Heap, Quick and
--                 Inserting; Ordering is about lists in order, with Bubble, Selection, Insertion and Shell,
--                 with Moving and Partition for Quicksort, and Heaping for Heapsort;
--                 Searching is about binary_search
--   Crypto        src/abs_crypto.c: Transform is sha256_transform, Defs the functions over it; Padding
--                 is about the blocks of a message, and Digest about the texts that are returned
--   Exceptions    src/abs_except.c and the macros try, catch and end_try of include/abscom/abs.h: Defs is a
--                 machine that runs client code, Structured what the code means, Unwinding compares
--                 them, and Rethrow is about a throw in a catch block
--   Matrix        src/abs_matrix.c: Defs and Shaping hold the functions; Loops, Cells, Grid, Copying and
--                 Rows are about loops that fill a block, Built says what a function returns, with
--                 Entrywise, Shapes, Product and Stacks, and Laws and StackLaws put operations together
--   Ws            src/abs_ws.c: Defs holds ws_encode_frame and ws_decode_frame, and Frames their laws;
--                 Receiving is ws_recv over the chunks of a socket, and Base64 is b64_encode
--   Runtime       src/abs.c. Values: what an object holds (Defs), its texts (Text), and arithmetic (Arith, and
--                 Repeating for texts times a count). Dict: dset and dget (Defs), chains and the map that a
--                 dictionary stands for (Laws), and what dset does to it (Storing). Json: the reader (Defs,
--                 Parse) and the printer (Dump); Lengths, Ends and Total are about texts of any form; Strings
--                 and Numbers read back texts and integers, Plain says which values are read back, Steps and
--                 Reading follow the reader over a printed value, RoundTrip puts them together, and Longs
--                 has a function as the C library's atol.
--                 Sets, Strings and Lists: their operations (Defs, and Testing for lists), with
--                 Distinct and Contents for the items of a set, Places for where a delimiter stands,
--                 Splitting for split and join, Contents and Ranges for the lists that are returned.
--                 Events is src/abs_events.c over Dict: Defs, and Order for when handlers run;
--                 Functions is src/abs_func.c: Defs, and Memo for the cache of results
--   Tests         runs of the model, and the theorems at concrete inputs
--
-- Conventions. A `size_t` or `uint64_t` is a number; where the code's arithmetic may wrap, `% 2 ^
-- 64` is written out, and a theorem's hypotheses or invariants show where it does not. A C string
-- is the list of its bytes before the terminator, and NULL is `none`. An allocator is a parameter:
-- a function that answers each request by its place in the code and its size, so every pattern of
-- failures is covered. A value behind a `void *` is of any type. A dynamic value of src/abs.c is
-- the tree of what its object and the objects behind its pointers hold, so two names of one object
-- are not told apart; an operation that changes an object in place returns the new value. In
-- Runtime, memory is there unless a parameter says otherwise. A double is of any type, with the
-- operations of C as a record. Arithmetic of type `int` on the dimensions and indices of matrices,
-- and on the bounds of slice, is a fault where its result does not fit; hypotheses bound the sizes.
-- A function of C that is called through a pointer may read and write a state of its own where that
-- matters, and the address of an object is a parameter of the functions that print it. setjmp saves
-- where the code goes on, and longjmp goes on there; client code leaves a try block by its end or
-- by a throw, not by return.
--
-- Fuel. The probing loops run on the capacity as fuel: the invariant keeps an empty slot, and the
-- distance to it falls in each round. The growth of a string's capacity doubles it, so 65 rounds
-- reach any size below 2 ^ 64. re_findall and re_sub run on the length of the text, of which each
-- round drops a byte at least. heapify runs on the size of the heap, since its index grows;
-- quick_sort_rec and the loop of binary_search run on one more than the number of items, which each
-- round makes smaller, and so does merge_sort_rec. The gap of sort_shell is halved in each round,
-- which the length bounds. The functions of the JSON reader call each other on ever shorter texts,
-- and a character is read in at most four calls, so they run on four units for each character and
-- four more; a call without fuel is a fault. The loops of split and count run on the length of the
-- text, of which each round drops the delimiter.
--
-- Not modelled here: the parts of the library that only call the operating system, C's mathematics or a
-- graphics format; the statistics, automatic differentiation and tables of numbers; of src/abs.c the pool of
-- objects, classes, files, printing, random choices and http_get; of src/abs_matrix.c the AVX kernel,
-- determinants, ranges, filters and files; and the modules on generators, paths, CSV, encodings and the HTTP
-- server.
pub mod Prelude
pub mod Crypto
pub mod Dynarray
pub mod Exceptions
pub mod GrowString
pub mod Hash
pub mod Hashmap
pub mod Itertools
pub mod Matrix
pub mod Regex
pub mod Runtime
pub mod Sort
pub mod Ws
pub mod Tests
