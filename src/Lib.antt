-- ===== src/Lib.antt =====
-- Verification of the EE516 course programs, in C.
--
-- The repository holds separate programs. Those with logic of their own that is modelled here:
--
-- * hw1/hw1_driver.c, a character device with a stack of bytes: `StackDriver`. `modify_stack` is
--   `modifyStack`, `serve` the dispatch of read, write and ioctl. `StackDriver/Spec` is a list of
--   bounded size that it is compared with, `Valid` what holds of its array and stack pointer. `Clients` has
--   hw1/provider.c, hw1/consumer.c and hw1/cleaner.c on it, one round of a loop at a time.
-- * project3/mysemaphore.c, semaphores as system calls: `Mysema`. `Calls` has the calls on one
--   semaphore, cut where the spin lock is taken: `check` and `check_up` before it, `take` and
--   `raise` under it; `check_init` and `check_release` are the tests of the two calls that take no
--   lock, and `write_field` is one of their writes. `Wake` is about one call, and about the loop of
--   project3/task3_semaphoretest.c that wakes all sleepers; `System` is about all calls of all
--   tasks, interleaved.
-- * hw2/pro_con.c and hw2/read_write.c, threads with semaphores: `ProCon` and `ReadWrite`. A thread
--   is a program counter with its live local variables, a system the shared variables and all
--   counters. Each move is one access to shared data or one semaphore operation.
-- * project4/bbfs.c, a pass-through file system with encryption and a cache: `Bbfs`. `Policy` is
--   loadPolicyFromFile, `Cipher` the encryption, `Cache` the list of chunks with bufferHitCheck,
--   addFileBuffer and releaseFileBuffer, `Read` and `Write` are bb_read and bb_write on top of them.
--   `Cache/Inv` has what the operations keep, `Write/Aligned` a write followed by a read or a close.
--   `Forward` has the operations that pass a call on: `Operations` the handlers with bb_oper, `Table`
--   what each request stands for, `Directory` bb_readdir. bb_release is in `Write`.
-- * project5/task1/linkedlist_skel.c, a character device with a linked list of digits: `LinkedList`. A
--   list of nodes is a data type, as each node has one owner. `LinkedList/Bag` counts its values, and
--   `Clients` has the threads of project5/task1/reader_writer_skel.c on it.
-- * project3/task1_dining_philosopher.c, sixteen philosophers under a mutex: `Dining`. What is done
--   under the mutex is one step. `fault` is set when the array `state` is accessed outside its
--   bounds; the cell behind the array is taken to keep its value.
-- * project3/task1_training_monkeys.c, monkeys that share four balls and two bowls, and a trainer who
--   fills the bowls: `Monkeys`. All threads are interleaved, main creates monkeys without end. `Weights`
--   counts where a thread holds a permit, `Others` is about the trainer and main, `Inv` joins them.
-- * project2/procmon.c, a listing of the processes that is sorted by a criterion: `Procmon`.
--   `proc_show` is procmon_proc_show with the loop over the processes and `bubblesort`, and
--   `selection_write` is procmon_proc_selection_write. `Procmon/Sorted` is about the rows,
--   `Procmon/Selection` about the texts.
-- * hw4/hw4_redblacktree.c, a red-black tree of processes on nodes with pointers: `RedBlackTree`.
--   `Memory` has the nodes at their addresses, `Rotate`, `Insert` and `Delete` the functions on them, `Holds`
--   the tree that the nodes form, `Cells` what a few writes do to a few nodes. `Context` and `Zip` are about
--   a subtree in its place, `Colors` about the colours. In `Insert`, `Whole` is about insertNode, `Verify`
--   about verifyInsertion, `Both` about one after the other as main calls them, `Leftmost` about
--   leftmostNode; in `Rotate`, `Left/Tree` and `Right/Tree` about the rotations.
-- * project5/task2_4/task2_4.c, a driver that shows a count of presses on four LEDs: `Blinker`. Each
--   handler is one step, at a time that the kernel gives; the time does not wrap here.
-- * project5/task2_3/task2_3.c, a button that starts and stops the flashing of four LEDs, each with its
--   timer: `Flasher`. The handler of the button is one step; it can interrupt the handler of a timer between
--   any two accesses. `Flips` is about presses that do not, `Race` about one that does.
--
-- `Sorting` is the interface that `list_sort` of the kernel must meet, `Sorting/Insertion` a sort that
-- meets it, and `Sorting/Unique` is about the one result that a stable sort can have.
--
-- Bounds and fuel. The two entry points of the down operation call each other at most once, so fuel 2
-- is enough for `check`. The count of a semaphore wraps at 2^32, the bytes of a file at 2^8. The length of the
-- linked list wraps at 2^32. Other integers do not reach the ends of their ranges and do not wrap here.
-- The loops of hw4/hw4_redblacktree.c have fuel; the number of nodes of the tree is enough for those that
-- go down it. The fuel of `bb_readdir` bounds the number of entries. `fault` in the tree is a null pointer,
-- or a freed node, that is followed; allocation does not fail.
--
-- Parameters. `list_sort` of the kernel, the priorities of tasks, the processes of project2/procmon.c
-- with their counters, `isspace`, HZ and the clock, `pread` and `pwrite` with the state of the disk, the
-- results of `rand` and the content of the policy file are arguments, and so are the calls, macros and
-- constants of the system that `Bbfs/Forward` uses, with HAVE_SYS_XATTR_H, the stream of a directory and the filler of FUSE, and
-- what the C library makes of the result of a system call, with hypotheses on 0 or more and on -1.
-- `none` as a result of the file system is behaviour that C leaves undefined: text operations on a
-- chunk without a zero byte, and a chunk that is used after it was freed.
--
-- Not modelled: bb_init, bb_destroy and main of project4/bbfs.c and its log; the benchmarks
-- project1/fs_bench.c and project4/task3_fsbench.c, the examples of hw3 and project2/proc_sample.c, which do input and output only; the kernel's list.h, of which list
-- operations are used as operations on lists; generated *.mod.c files; the registration of modules;
-- the printing of trees and rows, project5/task2_1 and task2_2, whose LEDs have no input.
pub mod Base
pub mod Sorting
pub mod StackDriver
pub mod Mysema
pub mod ProCon
pub mod ReadWrite
pub mod Bbfs
pub mod LinkedList
pub mod Dining
pub mod Procmon
pub mod RedBlackTree
pub mod Blinker
pub mod Flasher
pub mod Monkeys
