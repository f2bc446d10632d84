-- ===== src/Lib.antt =====
-- The programs of the CS:APP labs.
--
-- Programs of five labs are modelled here. They share no code, so each is a tree of its own
-- over the module Base, which holds the lists, options and tests that all of them use.
--
-- The bit puzzles, 1.DataLab/datalab-handout/bits.c, are DataLab/Bits.antt: the ten integer puzzles, `bitXor`
-- under the name bitxor. DataLab/Words.antt is C's operators on 32-bit words, DataLab/Digits.antt the laws of
-- the bitwise operations, by their digits, and DataLab/Sign.antt the sign bit. Under DataLab/Bits, Logic, Mask,
-- Compare and Count are about single puzzles, Range about the ranges of two's complement, and Puzzles
-- about several at once. DataLab/Floats.antt is the three float puzzles, with the masks of their fields in
-- DataLab/Fields.antt and the value of a `float` in DataLab/Floats/Value.antt;
-- DataLab/Floats/Truncate and Round are about `float_f2i` and `float_i2f`.
--
-- The cache simulator, 4.CacheLab/cachelab-handout/csim.c, is CacheSim.antt: a line (`cache_line_t`),
-- `load_in_cache` on one set, and `read_trace` on the whole cache, run by `simulate` as `main` runs it on
-- a trace. `load_in_cache` is the hit loop `touch`, the search loop `search_from` with its body `look`,
-- and `replace`. The counters hit, miss and evictions are the record `Counts`. A trace is the list of
-- records that `fscanf` yields. An access outside an array is the result `none`.
-- CacheSim/Lines and CacheSim/Scan hold the facts on a set and on the two loops, CacheSim/Access and
-- CacheSim/Effect those on one access, CacheSim/Trace those on a whole trace, and CacheSim/Policy
-- those on which line goes.
--
-- The transpose functions, 4.CacheLab/cachelab-handout/trans.c, are Transpose.antt, and `trans_64_64` with
-- `transpose_submit` Transpose/Large.antt. A matrix is a flat array, so that an index behind the end of a row or of
-- the array goes where it goes in memory; `A` and `B` do not overlap. The eight local variables are the record
-- `Tmps`. Transpose/Loops is the `for` loop and its invariants, Cells what the writes do to one entry,
-- Turns, Moves and Inside the relations between the array before and after a step, Blocks and Square are about the
-- functions, Check about `is_transpose`. For `trans_64_64`, Large/Off is about the blocks off the diagonal, Large/Half,
-- Pairs and Diagonal about the block on it, and Large/Whole about the whole.
--
-- The shell, 5.Shell_lab/shlab-handout/tsh.c, has three parts.
-- Shell/Jobs.antt is the job list: `addjob`, `deletejob`, `maxjid`, `fgpid`, `getjobpid`, `getjobjid`,
-- `pid2jid` and `listjobs` on the table of 16 jobs and the counter `nextjid`.
-- Shell/Line.antt is `parseline` on the bytes of a line, with `argv` as the list of arguments.
-- Shell/Command.antt is the rest: the signal handlers, `waitfg`, `do_bgfg`, `builtin_cmd` and `eval` on
-- the state `Shell`, which is the globals, the signal mask and what has been sent with `kill`. The mask is
-- a set of the four signals the shell deals with, and `sigprocmask` adds to it and takes out of it as documented.
-- `eval` takes the process ID that `fork` returns and the signals that arrive while the shell waits.
-- What waits for a signal that has not come is the result `waiting`. Shell/Command/Reach is the
-- read/eval loop as a step relation: signals and command lines in any order.
--
-- The proxy, 7.Proxy_lab/proxylab-handout. Proxy/Sbuf.antt is the bounded buffer of sbuf.c: each atomic
-- step of `sbuf_insert` and `sbuf_remove`, a P, a V, the write or the read, is a constructor of `Step`,
-- and a state is the buffer with its semaphores and the place where each of the threads stands. Any
-- number of threads may insert and remove, in any interleaving. Proxy/Pool.antt is the pool of worker
-- threads of the same file, `create_worker_thread`, `init_thread` and `adjust_thread`, whose loop is a
-- list of turns, each with the buffer as the two tests find it.
-- Proxy/Locks.antt is reader-writer.c in the same way, with each read and write of the shared counter and
-- flag as a step. Proxy/Threads has the sums over threads that both use.
-- Proxy/Cache.antt is lrucache.c, `lRUCacheCreate`, `lRUCacheGet` and `lRUCachePut` with what they call, one
-- call at a time: the fields of the nodes are functions from addresses, and a function ends in the result
-- `done`, waits for ever, `stuck`, or uses what is not there, `fault` (Proxy/Outcome.antt).
-- Proxy/Locks/Alone.antt is the lock as a single thread meets it. Proxy/Cache/Entries is what the cache
-- promises, on a list of keys and values; Shape is the invariant, by Chain (the doubly linked list)
-- and Distinct, and Scan, Promote, Slots, Get, Put, Create and Serve are about the functions.
-- The addresses that `malloc` gives and the times of `gettimeofday` are arguments; a time is not 0.
--
-- The memory of the allocators, 6.Malloc_lab/malloclab-handout/memlib.c, is Malloc/Mem.antt: `mem_init`,
-- `mem_sbrk` and the rest on the three variables, with addresses as numbers and the address that
-- `malloc` returns as an argument. Malloc/Mem/Regions is about sequences of calls.
-- The allocator of mm_implicit_list.c, with NEXT_FIT as the file defines it, is Malloc/Implicit.antt: `mm_init`,
-- `mm_malloc`, `mm_free` and `mm_realloc` with `extend_heap`, `coalesce`, `find_fit` and `place` on the
-- memory system, its bytes and the globals `heap_listp` and `rover`. Malloc/Words.antt is its macros: words of
-- four bytes in a memory of bytes, and headers, footers and neighbours by address. Malloc/Blocks.antt is the
-- heap as a list of blocks, seen from one of them, and what a write does to it. Each file of
-- Malloc/Implicit/ is about one function: Coalesce, Finish, Join and Merge about `coalesce`, the others as
-- they are named; IsHeap is the invariant, Used and Allocate what becomes of the blocks in use.
--
-- Bounds and fuel. `words`, the loop of `parseline`, runs on fuel of one more than the length of the
-- line, and each turn uses up a byte. The two loops of `find_fit` run on fuel of one more than the size of
-- the heap, and each turn goes on by a block of at least 8 bytes. The loop of `float_i2f` runs on fuel of 32,
-- the bits of a word. `for_loop` runs on fuel of the distance from
-- the start to the end, and each turn goes on by at least 1. No other function has fuel: the loops over
-- arrays are structural. The bytes of memory are a total function, so an access outside the heap reads or
-- writes a byte that belongs to nobody.
-- The simulator has the result `none` where C leaves the outcome undefined: for `1 << s` with `s` of 31 or more, `addr >> b`
-- with `b` of 64 or more, and a counter that ends past the greatest `int`. The tag keeps its
-- truncation to an `int`; an address of a trace is any number, those of the source being below 2 ^ 64.
-- The two ends of the buffer, `front` and `rear`, are 32-bit integers that wrap around as the machine's do, and a
-- negative index is no entry of the array. `parseline` copies into 1024 bytes, and a line that does not fit is `overrun`.
-- Job IDs and the number of readers are natural numbers without a bound.
-- `atoi` is modelled for numbers that fit an `int`.
--
-- Not modelled: printing and error messages, the options of `main`, opening and closing of files, the
-- child's side of `fork`, `Signal` and the other wrappers of system calls, which are what they promise:
-- a P takes 1 off a semaphore above 0, `waitpid` yields a list of children and statuses, a new process
-- ID belongs to no job. Cancellation takes a worker out of the pool at once. The printing of `checkheap` and
-- the branches without NEXT_FIT are left out. The remaining programs (the explicit and the segregated
-- allocator, the proxy's requests) have no model here.
pub mod Base
pub mod CacheSim
pub mod DataLab
pub mod Malloc
pub mod Proxy
pub mod Shell
pub mod Transpose
