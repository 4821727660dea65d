-- ===== src/Lib.antt =====
-- Models of a repository of operating-system assignments and proofs about them.
--
-- The program's parts, and the files that model them:
-- * Assignment-04-locks/prod-cons.c (Locks/ProdCons): a producer and a consumer over a bounded buffer
--   under one mutex and two condition variables. The state is the globals, the numbers left in the
--   input file, the lines of the output file and the place of each thread; `ProducerStep` and
--   `ConsumerStep` are the statements of `producer` and `consumer` between two points where the
--   other thread can run.
-- * Assignment-04-locks/rwlock-reader-pref.c (Locks/ReaderPref) and rwlock-writer-pref.c
--   (Locks/WriterPref): any number of readers and writers under a lock of two semaphores. `Move` is
--   one access of one thread, `Pc` its place in `reader` or `writer` and the functions of the lock
--   that these call; Locks/Threads interleaves the threads in any order.
-- * Assignment-03-memory/2021MT10904.cpp (Tlb): the class `Queue` (Tlb/Queue) and the replacement
--   algorithms `FIFO` and `LIFO` that use it beside a map of the pages (Tlb/Replacement); `Optimal`
--   with its table of next uses (Tlb/Optimal), where the order in which `unordered_map` is gone
--   through is any that visits each entry and no other; `LRU` (Tlb/Lru) over a store of nodes that
--   point to each other, where `new` is any function that gives an address that is neither 0 nor live.
--   The loop that deletes the nodes has a round for each entry of the map. `main` runs the four on each
--   case of the input (Tlb/Best).
-- * Assignment-03-memory/2021MT10904mmu.h (Alloc): `my_malloc`, `my_calloc` and `my_free` over a store of
--   headers that point to each other. Alloc/Spec is what they promise on a list of blocks. The loop of
--   `find_suitable_block` takes a number of rounds, for which more than there are blocks is enough.
-- * Assignment-01-shell/2021MT10904_shell.c (Shell): the loop of the shell with its history, the
--   splitting of a line by `strtok` and the builtin commands. A child process is an event with the
--   words that it runs. `status`, which nothing sets before the first command, starts as either value. The loops over the tokens take a number of rounds, the line's length and one.
-- * Assignment-02-schedulers/online_schedulers.h (Sched/Sjf): the shortest-job-first scheduler, its
--   queue, its table of average bursts, and its loop (Sched/Sjf/Loop); a write behind the tables of
--   commands or behind the array for the words of a command is an outcome of its own, at which the
--   model stops. The multi-level feedback queue (Sched/OnlineMlfq) uses the same table, which its
--   theorems keep within 100 commands. Its two loops are one over the reads of the input, each behind
--   a round if a queue is not empty.
-- * Assignment-02-schedulers/offline_schedulers.h (Sched/Mlfq): the multi-level feedback queue, from
--   the loop that makes the processes (`fill`) to the loop that runs them (`mlfq`). A `Turn` holds what
--   the system gives in one round: clock readings and the results of `fork`, `kill` and `waitpid`.
-- * The three queues of the two feedback queues, which have the same code in both files (Sched/Queues).
-- * Assignment-02-schedulers/offline_schedulers.h (Sched/Fcfs): `FCFS`, its loop and the rows that
--   `write_csv` writes for it; `RoundRobin` (Sched/Rr), where a `Turn` holds what the system gives in
--   one round and the loop has as many rounds as turns are given.
-- Base holds the tests, lists, counts over threads, circular arrays, shifts, sets of keys, machine words
--   and doubly linked lists (Base/Dll, for the allocator and `LRU`) that these share.
--
-- Clock readings, exit codes and the lines that can be read are arguments, since they come from the
-- system. A semaphore is its value; `pthread_cond_wait` may wake with no signal, as POSIX allows;
-- reading numbers from a text file and formatting lines is not modelled. A loop is a recursion on its
-- list, on the rounds that are left or on the rounds that the system is given for, so only the
-- search of the allocator, the last loop of `LRU` and the loops over tokens have a bound on their
-- rounds.
-- An `unsigned int` or `uint64_t` is a number with its wrap-around written out; the index `rear`,
-- which starts at -1, is an integer.
--
-- Not modelled: reading and printing numbers and lines, opening files, the tokens of a command that is
-- handed to `execvp`, and what runs in a child process, all of which are calls of the system.
pub mod Alloc
pub mod Base
pub mod Locks
pub mod Sched
pub mod Shell
pub mod Tlb
