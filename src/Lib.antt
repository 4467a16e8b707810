-- ===== src/Lib.antt =====
-- A model of myLeveldb, a C++ reimplementation of the lower layers of LevelDB: the formats in
-- which keys, numbers and strings are written, the order of keys, the memory arena, and the skip
-- list that holds the entries of a memtable.
--
-- The parts, with the files of the repository that they model:
--   Coding      coding.h, coding.cpp       words, varints and length-prefixed strings
--   Slice       slice.h                    comparisons of byte strings
--   Comparator  comparator.h, .cpp         the interface of a key order, and the bytewise one
--   Logging     logging.h, logging.cc      numbers in decimal, escaped strings
--   Random      random.h                   the generator of random numbers
--   Status      status.h, status.cpp       error codes with their messages
--   DbFormat    dbformat.h, dbformat.cpp   internal keys, their order, lookup keys
--   Arena       arena.h, arena.cpp         the allocator
--   SkipList    skiplist.h                 the sorted list with links at several levels
--   MemTable    memtable.h, memtable.cpp   entries in memory, in a skip list of pointers
--   Iterator    iterator.h, iterator.cpp   the interface of iterators and their cleanup functions
--   Env         env.h, env.cc, env_boost.cc   files, the environment, reading and writing a whole file
--   Background  env_boost.cc               the queue of background work, threads
--   Port        port_win.h, port_win.cc    the condition variable, the mutex, the atomic pointer
--   WinLogger   win_logger.h, win_logger.cc    a line of the log
--   TestHarness testharness.h, .cpp        the registry of tests, the checks of a test
--   Common      -                          lists, tests, faults, bits, shared by the others
--   Examples    -                          runs on concrete inputs
-- DbFormat writes its keys by Coding and compares them by any Comparator, whose laws are
-- Comparator.Laws.IsOrder; MemTable takes its memory from Arena, keeps pointers to it in a
-- SkipList and compares them by DbFormat; Comparator compares by Slice; SkipList draws heights
-- from Random, takes its nodes from Arena (SkipList.Nodes) and its comparator as a parameter
-- with the laws SkipList.Chain.IsKeyOrder, which DbFormat.KeyOrder fills for whatever has an
-- internal key, MemTable.KeyOrder for internal keys and MemTable.Seek for the pointers of a
-- memtable. TestHarness prints through Status and Logging. The environment and the threads stand
-- beside these: of the other parts only TestHarness calls the environment.
--
-- A `char` is a number below 256 and a string, a slice or a range of memory a list of them. A
-- w-bit number is a natural number with its wrap-around written out. A function has the name of
-- the one in C++ in this language's spelling: `getVarint32` is `get_varint32`. A function that
-- changes an object takes its state and returns the new one. `none` is a failed `assert` or a
-- read outside the data; where the source returns NULL or false, the definitions say so. An
-- object on the heap is a number, its address: the addresses that `new` returns are arguments.
-- `snprintf`, `memcmp`, `std::string` and `std::vector` are modelled by what their documentation
-- says of the calls made.
--
-- Code that calls the operating system is an action of Common.Act on the state of the world: it
-- returns a value and a new state, or `none` if an `assert` fails or an exception is not caught.
-- A test, which may also end the process, is a TestHarness.Run. The calls are the record
-- Env.System.Os, a parameter; Env.Reading.IsStream, Env.Streams.IsQuiet and Env.RoundTrip.IsDisk
-- state what their documentation says of a file without read errors, of streams that throw
-- nothing, and of a disk that keeps what it is given. Code that several threads run is a
-- relation between states, Port.Step, Background.Step and Background.Threads.ThreadsReach: a
-- step is what a thread does between two points at which it may have to wait, and any order of
-- steps is a run. A lock that is held over a wait is part of the state; one that is not makes
-- its section one step.
--
-- Fuel: the loops of the skip list get as many steps as an argument says, and one per node and
-- per level and one more are enough; so does `read_loop`, with one per 8192 bytes and one more;
-- `decode_fixed64_portable` gets any number, since it never returns. The loops of
-- `encodeVarint64` and `varintLength` recur on the order of the numbers; others are structural.
-- `link_loop` gets a number of rounds, and twelve are all of them, since heights stop at 12.
-- Blocks have 4096 bytes, as in the source.
--
-- Not modelled: the processor's order of memory accesses, so that the links of a skip list are
-- plain ones and a reader beside the writer is stated of the list between two rounds of the loop
-- of `insert`; the ids of processes and threads and what the C library formats for
-- win_logger.cc, which are arguments; in env_boost.cc the destructor of `PosixEnv`, which exits,
-- and `PthreadCall`, which nothing calls; the test programs (arena_test.cpp, coding_test.cpp,
-- dbformat_test.cpp) and the scratch programs (main.cpp, littleBigEndian.h, stringstreamTest.h,
-- templateTest.h), which no part uses.
pub mod Common
pub mod Coding
pub mod Slice
pub mod Comparator
pub mod Logging
pub mod Random
pub mod Status
pub mod DbFormat
pub mod Arena
pub mod SkipList
pub mod MemTable
pub mod Port
pub mod Background
pub mod Env
pub mod Iterator
pub mod Examples
pub mod WinLogger
pub mod TestHarness
