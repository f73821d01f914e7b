-- ===== src/Lib.antt =====
-- Verification of the xv6 lab solutions of this repository (xv6-labs-2024).
--
-- Each lab is a set of changes to the xv6 kernel or a user program. A lab's directory holds only
-- the files, and mostly only the functions, that it changes; the rest of xv6 is not in the
-- repository. What a lab calls of that rest is a parameter here, with the documented behaviour
-- that the code relies on as named laws. Paths below are from the repository's directory
-- xv6-labs-2024.
--
-- * Cow models "lab6: cow/1. Implement copy-on-write fork/kernel". Cow/Kalloc is kalloc.c:
--   `kinit`, `freerange`, `kfree`, `kalloc`, `refcadd`, `refcremove`, `refcget`, on a state of the
--   free list, its `next` pointers, the counts and the bytes of memory. Kalloc/Inv is the
--   specification, a function from pages to their number of references. Kalloc/Race lets two calls
--   of `kfree` interleave at their critical sections. Cow/Paging has the entries of riscv.h and
--   the record of what `walk`, `mappages` and `uvmunmap` do; Paging/Array is an implementation
--   that meets the laws. Cow/Fork is `uvmcopy` of vm.c, Cow/Fault is `cowhandle` of proc.c,
--   Cow/Trap is `usertrap` of trap.c, which calls it at a page fault, and Cow/Copyout is `copyout`
--   of vm.c, which calls it before the kernel writes to a shared page. `uvmcopy` and `cowhandle`
--   meet in the counts of Kalloc: the one adds a reference for each entry of the child, the other
--   gives one back.
-- * Alarm models "lab4: traps/3. alarm/kernel": the timer branch of `usertrap` (trap.c),
--   `sys_sigalarm` and `sys_sigreturn` (sysproc.c), and the table of syscall.c, for one process
--   with its trapframe and the frame that is saved; `syscall` of xv6, which calls an entry of the
--   table, is a parameter. A run is a list of traps. Alarm/Process is `allocproc` and `freeproc` of
--   proc.c, which make such a process.
-- * Superpages models "lab3: pgtbl/4. use superpages/kernel". Superpages.antt is kalloc.c, with
--   its two free lists. Superpages/Table is `walk`, `superwalk` and `supermappages` of vm.c, over
--   tables of entries in memory; Superpages/Space is `uvmunmap`, `uvmalloc` and
--   `sbrksuperuvmalloc`, and Superpages/Fork is `uvmcopy`, over them; Superpages/Grow is
--   `growproc` of proc.c, which calls `sbrksuperuvmalloc` and keeps a record of the pages it
--   counted; Superpages/Process is `allocproc`, `freeproc`, `proc_pagetable` and
--   `proc_freepagetable` of proc.c over the allocator and `uvmunmap`; Superpages/Trap is
--   `usertrap` of trap.c. `mappages` and `uvmdealloc` of xv6 are parameters.
-- * Usyscall models proc.c of "lab3: pgtbl/2. speed up system calls/kernel": `allocproc`,
--   `freeproc`, `proc_pagetable`, `proc_freepagetable`, over a record of the kernel's functions.
-- * Trace models "lab2: syscall/1. system call tracing/kernal": `syscall`, its table and names,
--   and `sys_trace`. Trace/Process is `freeproc` of proc.c.
-- * Primes models "lab1: util/3. primes/primes.c": the chain of processes, each with the list of
--   numbers that comes out of its pipe.
-- * Backtrace models "lab4: traps/2. backtrace/kernel": `backtrace` of printf.c over a memory, and
--   `sys_sleep` of sysproc.c, which calls it, over what it sees of the clock at each round.
-- * Attack models kalloc.c of "lab2: syscall/2. attack xv6/kernal", with the pointers of the free
--   list in the bytes of the free pages. Attack/Grow is `uvmalloc` (vm.c), `growproc` (proc.c) and
--   `sys_sbrk` (sysproc.c) over it, with the page table functions of xv6 as parameters.
--   Attack/Exec is `exec` of exec.c over the same `uvmalloc`, with the file system as a parameter.
--   Attack/Fork is `fork` of proc.c, over counts of the references to open files.
-- * Vmprint models vm.c of "lab3: pgtbl/3. print a page table/kernel", with entries as 64-bit
--   numbers; Vmprint/Walk describes the walk of the hardware by the indices of an address.
-- * Pingpong models "lab1: util/2. pingpong/pingpong.c": two processes, each with the calls that
--   it still has to make, under a schedule that is a list of turns, over pipes that are a
--   parameter.
-- * Find models "lab1: util/4. find/find.c" over a file system that is a function from paths, and
--   Xargs models "lab1: util/5. xargs/xargs.c".
-- * Base has the shared names: Boolean tests on numbers, C integers as bit patterns (`uint64`
--   modulo 2 ^ 64, `int` as a pattern below 2 ^ 32 with its sign), runs that end in a value, a
--   panic or without fuel, and lists measured by native numbers.
--
-- Loops whose end is not visible in their arguments run on fuel. `freerange` has one round more
-- than there are pages below the end of memory (superpages, for the second loop of lab3), and
-- `uvmcopy` of both labs two more than pages in `sz`; so have `uvmalloc`, `sbrksuperuvmalloc` and
-- `sys_sbrk` for the new size, and `uvmunmap` one more than pages. `vmprint` has a round for each
-- of the three levels of a page table, and `uvmalloc` of the attack ends for sizes below 2 ^ 63.
-- That the fuel lasts is part of the theorems about them. `copyout` and `backtrace` take their
-- fuel as an argument: `copyout` needs more rounds than pages of the destination, `backtrace` a
-- round for each byte of the page above the frame pointer and one more.
--
-- Not modelled: locks, but for the race of `kfree`, so an operation is one step; printing, but for
-- what `syscall`, `backtrace`, `sys_sbrk`, `vmprint`, find and the sieve print; outside Attack the
-- bytes of a free page that hold its `next` pointer, which is kept apart from the page's bytes;
-- the other processes while one yields; in Superpages the entries of page tables are kept apart
-- from the bytes of the pages they lie in, and the number of open files in Find. `main` of the
-- attack of lab2, which starts the parts of xv6 one after the other, its two user programs, and
-- sleep of lab1, which makes one call, have no model. A write past the end of a local array, of
-- which C says nothing, is a panic in Attack/Exec and has no result in Xargs.
pub mod Base
pub mod Alarm
pub mod Cow
pub mod Primes
pub mod Trace
pub mod Usyscall
pub mod Superpages
pub mod Backtrace
pub mod Attack
pub mod Find
pub mod Xargs
pub mod Vmprint
pub mod Pingpong
