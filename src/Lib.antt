-- ===== src/Lib.antt =====
-- Models and proofs for the example modules of this repository, which teach Linux kernel
-- programming. A module is loaded, serves files, threads or callbacks, and is unloaded; the
-- modules share no state with one another. The kernel below them is never modelled as such: what a
-- call of it returns is an argument, or a record of functions with the laws that the code relies
-- on.
--
-- Which file is about which part:
--   * Prelude, Prelude/*: lists, options and Boolean tests over native numbers. Kernel: error codes
--     and results, as negative and other return values.
--   * Interfaces/Counter: interfaces/procfs/counter_procfs.c (Procfs), interfaces/sysfs/
--     counter_sysfs.c (Sysfs) and interfaces/debugfs/counter_debugfs.c (Debugfs). The state is the
--     counter, a 32 bit number that wraps. A write is its byte count and what copy_from_user
--     delivers. Nodes has the loads and unloads, History the counter as a function of all writes.
--   * Sync/Books: sync/part3/list_rcu.c. The state has the nodes of the list with their addresses,
--     the callbacks that wait for a grace period, and the live allocations. Add_book is add_book,
--     and so on. A callback is a step of its own. Memory, Catalog and Lookup have the theorems.
--   * Sync/Refcount: sync/part5/refcount_example.c. The functions on the resource, and in Threads
--     the system of user_thread_fn threads as a step relation: one step is one access of the shared
--     memory. Safety has the invariant.
--   * Sync/Handoff: sync/part4/kthread_sync.c and sync/part4/kthread_sync_waitq.c, over an interface
--     for the semaphore of the one and the flag of the other. Rounds and Unload have the theorems.
--   * Sync/Pair: sync/part1/kthread_semlck.c and sync/part1/kthread_spin.c, a step being one access
--     of the structure or the lock. Consistent and Freed have the theorems.
--   * Sync/LocklessQueue: the threads of sync/part3/lockless_queue.c in rounds, whatever the kfifo
--     answers, with the unload (Traffic). Offered and Unload have the theorems.
--   * Sync/Kref: the workers, load and unload of sync/part5/kref_example.c, an access to shared memory
--     a step (Workers). Weights and Kept have what is counted and the invariant.
--   * Sync/Kthreads: the loads of sync/part5/refcount_example.c, sync/part5/kref_example.c,
--     sync/part3/lockfree_list.c and sync/part3/lockless_queue.c, which start threads in a loop and
--     stop them when one cannot be created.
--   * Vm/Mmu: page table entries and the functions of the kernel on them, as one record; the memory
--     as a function from addresses, the mmap lock and the printed addresses as the machine.
--     Vm/Capitalize: the loop that all three walks end with.
--   * Vm/Userwalk: vm/p3_usertrans/userwalk.c, a function for each level of the walk, since the
--     code's nested tests all return early. Request has the files and its Outcome what
--     they come to, Translation which entries lead to a page, with the number
--     that the code forms (Maps) and the masked physical address (Translates), Walk, Physical and
--     Bounds the theorems.
--   * Vm/Pagewalk: vm/p1_trans/x86_64_pagewalk.c (X86), vm/p1_trans/arm64_pagewalk.c (Arm64), what
--     they share (Kernelmem) and the theorems on both (Laws).
--   * Notifiers/Chain: the notifier chains of the kernel as an interface. Notifiers/Custom:
--     notifiers/part4/custom_notifier.c. Notifiers/Panic: notifiers/part5/panic_notifier.c.
--     Notifiers/Pm and Notifiers/Oom: notifiers/part1/pm_notifier.c and oom_notifier.c.
--     Notifiers/Monitors: notifiers/part1/module_notifier.c, notifiers/part2/netdev_notifier.c and
--     notifiers/part2/inet_notifier.c.
--   * Mm/Slub: the slab caches of mm/p3_slub, as an account of live objects: mcache.c (Mcache),
--     mempool.c (Mempool), dcache.c (Dcache) and safe_alloc.c (SafeAlloc, with memory contents).
--   * Buggy/MissingLock: debug-lkms/buggy-modules/locking/missing_lock.c. Threads has its threads, a
--     step being one load or store, Locked and Race what they come to with and without the mutex,
--     Trigger the file that starts them.
--   * Security/Strings: C strings in arrays and strtok. Security/Keys: the user programs of
--     security/part2 as commands on a state of keys, which are the calls of libkeyutils as a record:
--     key_ops.c (KeyOps), keyctl.c (Keyctl) and test_keyring.c (Suite). Documented has the laws of
--     the calls and Memory an instance. Security/Keyring: security/part2/keyring.c.
--   * Security/Seccomp: the programs of security/part1/seccomp as commands of a process:
--     seccomp_basic.c (Basic), seccomp_modes.c (Modes, with its Filter) and seccomp_test.c (Scmp),
--     over the kernel and over libseccomp as records.
--   * Buggy/Checker: the heap and the locks of a task as a sanitizer and a lock checker see them.
--     Buggy/Memory and Buggy/Locking: the modules of debug-lkms/buggy-modules/memory and of
--     debug-lkms/buggy-modules/locking, a file each; their Intended has a table of the commands.
--
-- Bounds and loops: a loop over a C string or an array is recursion on the code's own bound (nine
-- rounds of a walk's loop, ten event cycles, a thousand increments, three or four threads, 4096
-- bytes), so no fuel is added; the threads' loops are step relations of any length. The menu of
-- seccomp_modes.c runs on fuel, of which one round more than its input has characters is enough,
-- and its filter on a step for each instruction, as jumps lead forward. Numbers are natural
-- numbers; where the code's type is narrower and can wrap, the modulus is written out. The
-- counters of Sync/Refcount and Sync/Kref have the limit of refcount_t as a parameter.
--
-- Not modelled: log messages other than the addresses that a walk prints, the events of the custom
-- notifier, the trend of free memory, the crash dump, the reports of the checkers and what the
-- programs under security print; delays; weak memory; signed values below zero, which none of the
-- modelled code computes with outside of error codes; RCU readers; the workers of
-- sync/part3/lockfree_list.c and the contents of the kfifo of sync/part3/lockless_queue.c, which
-- are used without the lock that their documentation asks for; the rest of the repository, whose
-- other examples, user programs, eBPF programs and scripts are left out.
pub mod Prelude
pub mod Kernel
pub mod Interfaces
pub mod Sync
pub mod Vm
pub mod Notifiers
pub mod Mm
pub mod Security
pub mod Buggy
