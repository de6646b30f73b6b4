-- ===== src/Lib.antt =====
-- Verification of programs of the CPSC 213 assignments, translated from their C sources.
--
-- Common: shared names, Boolean tests, lists, maps, bit operations.
--
-- Machine: the Simple Machine simulator, a8/q3/sm.c, and its variant with jump tables, a8/q3/sm-jt.c.
--   State has the globals, Words the int arithmetic, Memory the loads and stores, Fetch the function
--   fetch, Exec the switch of exec with one function for each instruction, JumpTable the exec of
--   sm-jt.c, Compute the loop compute, on fuel. System calls are the parameter Os.
--
-- ArrayList: the growing array of a8/q1/list.c. A list is its cells, its length and its size; Slice
--   reads the cells as a list. Mapping has the functions that take a function.
--
-- Malloc: the allocator of a5/q2/mymalloc.c. Headers are a map from offsets; Chain reads the list of
--   free blocks as a list of offsets. The walks take fuel, and one round for each free block is
--   enough.
--
-- Uthread: the thread queues of a11/uthreads/uthread.c, whose links are fields of the threads, so that
--   all queues share them; Linked and Waiting read the queues as lists of threads, and Wakeups moves
--   threads to the queue of those ready to run. Semaphore is uthread_sem.c and Mutex is
--   uthread_mutex_cond.c: what a thread does under a spin lock is one step, blocking ends a turn of a
--   loop, and Runs is the step relation of all threads. The loop that wakes all threads of a queue
--   takes fuel: one round for each thread and one more is enough. Lifetime is the end of a thread, its
--   join and its detach. Creating and switching threads, in assembly and over pthreads, is not modelled.
--
-- Well: the well of a11/soln/well.c. What a thread does while it holds the mutex is one step; Occupancy
--   is the step relation of all threads, and Signals says whom a thread that leaves signals. The
--   histograms are not modelled.
--
-- RefCount: the counted blocks of a5/refcount.c; Counts says that the counts are the numbers of
--   references, as a list of addresses that says who owns what. Elements is refcount.c, int_element.c
--   and str_element.c of a7/q3; NumberedElements is element.c of a5/q3. Ownership is the interface that
--   both fill and that the list and the tree use. ElementList is list.c of a7/q3, doubly linked nodes on
--   a heap, ElementTree is tree.c, and a5/q3 has the same but for what they do to their elements.
--   ListAndTree has the parts of main.c that a5/q3 and a7/q3 share, ElementProgram main.c and sortmain.c
--   of a7/q3, and NumberedElements/Program main.c of a5/q3. Loops over the list take fuel: one round
--   for each node and one more is enough. strcmp, strtol and qsort are parameters. Nodes of the tree
--   and of the list are not counted as references.
--
-- ItemPool: the producers and consumers of a11/soln/pc_sem.c, as threads that stand before one call
--   after the other; Runs is the step relation of all threads.
--
-- SemWell: the well of a11/soln/well_sem.c, where a thread that leaves lets in those that wait; Runs is
--   the step relation of all threads.
--
-- BinaryTree: the tree and the program of a4/BinaryTree.c; atoi is a parameter.
--
-- Switches: the three forms of a function in a8/q2/SB-switch.c. Dispatch: the classes of
--   a7/SA-dynamic-call.c, where a call takes fuel, one for each call of a super method and one more.
--
-- RequestNodes: the nodes that a9/queue.c and a9/disk.c link in the same way; Line and Kept say which
--   nodes are in the queue, in order, and which are free. RequestQueue is queue.c, with Fifo and Runs
--   against a list, Disk is disk.c, with the time of day as an argument and the interrupt service
--   routine as a parameter, and DiskReads/Async is aRead.c, which uses both: a timer interrupt can come
--   between any two steps of main, and the variable of a round of its loop is gone when the round has
--   ended. The loops take fuel: a round for each node and one more is enough.
--
-- Smokers: the agent, the pushers and the smokers of a11/soln/smoke_sem.c, as threads that stand before
--   one call after the other; Balance says what the semaphores and the points add up to.
--
-- Machine/Loader and Machine/Program: loadFile, showMem, parseArgs and main of a8/q3/sm.c, with strtol as a
--   parameter and the files as a map from names to lines; Loading and CommandLine are their round trips.
--
-- Sorting: the sort and main of a3/bubble_sort_dynamic.c, with strtol and the contents and the size of the
--   allocated array as parameters; Passes and Kept are proofs on the sort without bounds, Inside says that
--   an array that is large enough gives the same, and Printed is about main.
--
-- Not modelled: the threads of a11/uthreads below their queues, which are assembly and pthreads, and
--   their earlier copies in a9 and a10; smoke.c of a11 and of a11/soln; the versions of well.c, well_sem.c,
--   well_sem1.c and pc_sem.c in a11 itself, and the programs of a10; sRead.c, tRead.c and treasureHunt.c of a9;
--   trunc.c and test.c of a8/q1; a5/q2/main.c, which prints;
--   the small exercises of a3 to a8; and the Java classes, which extend a simulator that is not here.
--
-- Conventions. Numbers are native naturals. An int of the simulator is its 32-bit pattern, below
-- 2 ^ 32, and its arithmetic wraps around. An access outside an array is undefined behaviour and the
-- result none. Functions that the sources take from the C library or the operating system are
-- parameters, and malloc succeeds unless a comment says otherwise.
pub mod Common
pub mod Machine
pub mod ArrayList
pub mod Malloc
pub mod Uthread
pub mod Well
pub mod RefCount
pub mod RequestNodes
pub mod RequestQueue
pub mod Elements
pub mod ElementList
pub mod ElementTree
pub mod Ownership
pub mod ListAndTree
pub mod ElementProgram
pub mod NumberedElements
pub mod ItemPool
pub mod Smokers
pub mod Switches
pub mod Disk
pub mod DiskReads
pub mod Dispatch
pub mod SemWell
pub mod Sorting
pub mod BinaryTree
