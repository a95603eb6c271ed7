-- ===== src/Lib.antt =====
-- The GAP Benchmark Suite's breadth-first search experiment, as a library of definitions and theorems.
--
-- The program. A graph is built from a list of edges (src/builder.h) into compressed sparse rows
-- (CSRGraph, src/graph.h). The search kernel (DOBFS, src/bfs.cc) goes over it from a source vertex. It
-- keeps a parent array (negative: unvisited), a queue of vertices whose window is the frontier
-- (SlidingQueue, src/sliding_queue.h, with a QueueBuffer for each thread) and two bitmaps
-- (src/bitmap.h). A round goes top-down (TDStep) from the window, or, when the frontier has many edges,
-- turns the window into a bitmap (QueueToBitmap), goes bottom-up (BUStep) until the frontier shrinks, and
-- turns the bitmap back into a window (BitmapToQueue). BFSVerifier checks a parent array against a
-- plain search. bfs.cc at the root is the same kernel on another runtime: it deals the iterations of
-- each loop to workers (StaticRange, or a shared cursor in BUStep) and joins them (RunParallel).
-- src/bfs_pthread.cc is the kernel on a pool of threads, which meet at a barrier (SpinBarrier).
-- src/cc.cc and src/cc_sv.cc label the connected components of a graph, and src/tc.cc counts its
-- triangles. The arguments of a program are
-- parsed by the classes of src/command_line.h; a graph comes from a file (src/reader.h) or a generator
-- (src/generator.h), and is written to one by src/writer.h. src/pvector.h is the array that all use.
--
-- The files.
--   Base      shared helpers: tests and arithmetic on numbers, signed integers and the conversion to
--             32 bits, arrays as lists, membership; text as lists of character codes with the
--             decimal numbers of the standard library, and results of code that may exit.
--   Bitmap    src/bitmap.h: words below 2^64 read and written by bit operations. Bitmap/Words has the
--             facts on single bits, Bitmap/Bits those on get_bit, set_bit and reset, and Bitmap/Races those on
--             set_bit_atomic among the actions of other threads (compare_and_swap of
--             src/platform_atomics.h).
--   SlidingQueue  src/sliding_queue.h: the array and its three indices. SlidingQueue/Window gives the
--             abstract view (read, window, appended, free), SlidingQueue/Buffer the buffered appends.
--   Graph     src/graph.h: offsets for the pointers of the index. IsValid is what the kernels rely on,
--             and Graph/Check decides it.
--   Builder   src/builder.h: CountDegrees, PrefixSum, ParallelPrefixSum, MakeCSR, MakeGraphFromEL.
--             Builder/Prefix and Builder/Blocks are about the sums, Builder/Arcs, Builder/Slots and
--             Builder/Stored about the neighbours stored, Builder/Built about the whole graph, and
--             Builder/Squish about the neighbours that SquishCSR keeps for a vertex.
--   Bfs       src/bfs.cc: Parent (InitParent, the last sweep), TopDown, BottomUp, Convert, Search (DOBFS),
--             Verifier. Level and Tree say what a step owes to the search, and what the tree is.
--   Workers   bfs.cc: Ranges (StaticRange), Regions and BottomUp (the workers and their regions),
--             Orders, Entries, TopDown and Frontier (what the regions compute).
--   Pool      src/bfs_pthread.cc: Barrier (SpinBarrier, one atomic action at a time, interleaved), Tally
--             and Modes (the counters and the three modes of a round), Moves, Flip and Steps (the
--             invariant), Rounds, Sleepers (who is woken) and Progress.
--   PVector   src/pvector.h: Growth (push_back and reserve), Resize (resize, fill, constructors).
--   CommandLine  src/command_line.h: CLBase, CLApp and ParseArgs; Getopt is what they use of getopt,
--             Derived has the other classes, Meaning what the options of CLApp mean, Written the ways
--             to write options.
--   Reader    src/reader.h: Streams (the input streams of the standard library with their flags), the
--             readers of edge lists and .gr files, Matrix (.mtx), Files (ReadFile), Progress (which
--             loops end).
--   Serialized  the binary format of src/writer.h and src/reader.h, byte by byte: Codec and RoundTrip.
--   Writer    src/writer.h: WriteEL and WriteGraph; Numbers and EdgeList read back what is written.
--   Components  src/cc.cc and src/cc_sv.cc: Forest (the trees that the labels form), Link, Compress,
--             Offsets (the neighbours from an offset on), Rounds and Sampling (the loops), Afforest,
--             and Hooking (Shiloach-Vishkin).
--   Generator  src/generator.h: Draws (UniDist), Blocks (the loop over blocks, uniform edges, weights),
--             EdgeLists (R-MAT edges, and the whole lists).
--   Triangles  src/tc.cc: OrderedCount. Scan is about the merge of two neighbourhoods, Counted about the
--             count, Simple about graphs without self-loops.
--   Benchmark  src/benchmark.h: TopK. Descent is about descending lists, Largest about what is kept.
--   Tests     small inputs on which the definitions run, and the theorems at those inputs.
--
-- Choices. Vertices and offsets are natural numbers without a bound, entries of the parent array
-- signed integers; InitParent keeps the conversion of a degree to 32 bits, and CountDegrees the wrap-around
-- of its 32-bit counters; MakeGraphFromEL makes no graph of a vertex 2^31 - 1. Counters of 64 bits are
-- unbounded. The parallel loops of src/bfs.cc are taken in their serial order; those of bfs.cc with
-- the workers one after the other in any order (in BUStep the chunks in any assignment). Races inside a
-- worker are modelled for set_bit_atomic only. A read out of bounds gives a default and a write out of
-- bounds changes nothing; the theorems ask for the room that the source allocates. New arrays
-- hold an arbitrary value where the source leaves them uninitialized. The size of a QueueBuffer (16384),
-- of a chunk (1024) and of a block of the prefix sum (2^20) are parameters.
--
-- Fuel. DOBFS has a loop in a loop: the outer one gets num_nodes + 2 rounds and the inner one num_nodes
-- + 1, and the search of the verifier num_nodes. A round that leaves a frontier has visited a vertex,
-- and the verifier puts a vertex on its list once, so this is enough: the theorems show that none of
-- them runs out.
--
-- Each loop of Link gets one round more than the sum of the two labels, and each of Compress one more
-- than the label, which every round makes smaller; an iteration of Shiloach-Vishkin that goes on makes
-- the sum of the labels smaller. The loops of the readers have the fuel as an argument.
--
-- FutexWait checks the phase and puts the thread to sleep in one action, which FutexWakeAll
-- ends. The iterator of OrderedCount in a neighbourhood gives no result once it leaves it.
--
-- Parameters. The draws of SampleFrequentElement and of the generator's engine, std::shuffle, std::stod
-- with double, ReadInMetis, and the file system (which files open, and what they hold) are arguments of
-- the definitions that use them. Numbers in serialized files have the low byte first. A variable that an input stream leaves unset, and the bytes
-- that a file is short of, are 0.
--
-- Not modelled: logging, timers, statistics and the messages of ParseArgs; weights in graphs, building in
-- place, the arrays of SquishCSR, and relabelling; ReadInMetis (its loop over a line depends on what std::ws
-- does at the end of a stream, which differs between versions of the standard library) and weighted
-- serialized graphs; the ownership of storage (leak and the destructor of pvector, the moves of
-- CSRGraph); the thread pool of src/bfs_pthread.cc, and wakeups of its futex without a cause; CCVerifier; what src/benchmark.h has besides
-- TopK; WorthRelabelling, Hybrid and TCVerifier of src/tc.cc; the other kernels
-- (src/sssp.cc, src/pr.cc, src/pr_spmv.cc, src/bc.cc).
mod Base
pub mod Bitmap
pub mod SlidingQueue
pub mod Graph
pub mod Builder
pub mod Bfs
pub mod Workers
pub mod Pool
pub mod PVector
pub mod CommandLine
pub mod Reader
pub mod Serialized
pub mod Writer
pub mod Components
pub mod Triangles
pub mod Benchmark
pub mod Generator
pub mod Tests
