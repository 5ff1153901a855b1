-- ===== src/Lib.antt =====
-- The OS/161 kernel of this repository (os161/kern, in C): its containers, its threads and their
-- synchronization, its physical memory and kernel heap, its processes with their address spaces, and
-- its file systems: the VFS layer, the simple file system and the disk below. Of the C library
-- (os161/lib/libc) the functions that the kernel shares.
--
-- How the parts interact. lib/array.c and lib/queue.c keep the tables of the thread system: the
-- sleepers and the zombies are arrays, the run queue of thread/scheduler.c is a queue.
-- thread/thread.c moves threads between the three and switches; thread/synch.c puts threads to sleep
-- on the address of a semaphore, a lock or a condition variable and wakes them there.
-- arch/mips/mips/ram.c hands out memory until vm/vm.c has set up the coremap, from which kernel
-- pages and the pages of processes come; vm/addrspace.c, userprog/mem.c and vm_fault map the latter.
-- main/process_create.c enters each new thread in the process table, under a lock; _exit and waitpid
-- meet there. lib/kheap.c divides pages of vm.c into small blocks. fs/sfs finds free blocks in a
-- bitmap and moves data through uio.c, which dev/lamebus/lhd.c calls once for each sector. fs/vfs
-- finds the vnode of a path and calls file systems through their tables of functions, which are the
-- parameter `ops` of type FsOps. userprog/loadelf.c reads a program and defines the regions of
-- its address space.
--
-- Files, and the code that each models (paths below os161/kern):
--   Prelude, Errno: shared names, lists and numbers, and include/kern/errno.h
--   Array: lib/array.c (children Grow, Resize, Edit: growth, sizes, insertion and removal)
--   Queue: lib/queue.c (Window: the ring as a list; Grow, Refine: the operations on it)
--   Bitmap: lib/bitmap.c (Marks, Alloc, Create)
--   Scheduler: thread/scheduler.c (RoundRobin: the run queue as a list of threads)
--   Thread: the wakeups of thread/thread.c (Sleep); Thread/Context: the switch, its callers and
--     thread_fork (Live, Fork: which thread is where)
--   Synch: thread/synch.c (Wakes, Wait: who is woken and who sleeps; Exclusion: a lock under any
--     interleaving)
--   Coremap: arch/mips/mips/ram.c, getppages to free_kpages of vm/vm.c, allocate_physical_page
--     (Runs, Pages, Boot)
--   AddrSpace: vm/addrspace.c, incStack and incHeap of userprog/mem.c, sys_sbrk
--     (Translate, Regions); AddrSpace/Tlb: vm_fault of vm/vm.c (Fault)
--   Process: main/process_create.c, next_pid, get_process, _exit, waitpid and getpid of
--     arch/mips/mips/syscall.c, the first loop of thread_exit (Table, Reap)
--   Kheap: lib/kheap.c (Chain, Page, Fresh: the free list of a page as a stack of its blocks;
--     Serves)
--   Libc: strlen.c to memmove.c of os161/lib/libc, outside os161/kern (Memory: the memory copies;
--     Strings, Atoi)
--   Printf: os161/lib/libc/__printf.c, outside os161/kern (Numbers, Decimal: what it writes of a
--     number; Through, Counts); Printf/Snprintf: snprintf.c (Buffer)
--   Copyinout: lib/copyinout.c (Bounds)
--   Uio: userprog/uio.c (Moves, Delivers)
--   Lhd: lhd_io of dev/lamebus/lhd.c (Sectors)
--   Sfs: fs/sfs/sfs_io.c and the blocks of fs/sfs/sfs_vnode.c (Blocks, Retries, Alloc); Sfs/Words,
--     Inode: blocks as words and inodes; Sfs/Bmap: sfs_bmap (Mapping, Direct, Slot, Indirect,
--     Refine); Sfs/File: sfs_partialio to sfs_io (Reads); Sfs/Dir: directory entries (Entries);
--     Sfs/Truncate: sfs_truncate (Frees); Sfs/Pool: vnodes in memory (Loads); Sfs/Files: the calls on
--     names
--   Vfs: what fs/vfs keeps, and the tables of functions that it calls; Vfs/Vnode: vnode.c;
--     Vfs/Devices: the names of vfslist.c (Names, Adds); Vfs/Mounts: its mounts (Trips);
--     Vfs/Lookup: vfslookup.c and vfscwd.c (Forms, Bootfs, Refs); Vfs/Calls: vfspath.c (Refs)
--   LoadElf: userprog/loadelf.c, where reads of the file are parameters (Segments)
-- A definition has the name of the function or type that it models, in snake_case or
-- UpperCamelCase; P and V are sem_p and sem_v. Most of the children
-- in parentheses hold proofs (Libc/Memory also the copies), and each Tests file holds instances.
--
-- Conventions. Numbers are natural; what the source wraps is written with its modulus, and `int`
-- overflow is no result. `none` of Option as a result is the end of the kernel: a failed assert, a
-- panic, or an access outside a block. Outside Kheap, kmalloc is a parameter `mem` or the memory
-- that it returns; where a call needs whole pages it is alloc_kpages itself. Interrupts are a
-- parameter: which threads or sleep addresses they wake in each round of the idle loop. The results
-- of the disk's operations are a list that the disk carries, and so are those of copyin and copyout
-- in a uio, with the bytes that each one that fails has copied; after its end every one is 0. A word on the disk has its high byte first.
--
-- Bounds and fuel. Loops recurse on a number of rounds, given where they start: the doublings of
-- array_preallocate and q_grow as many as the size asked for, the loops over the sleepers and the
-- zombies as many as there are, move_guys and the walks over a ring as many as it has slots. The
-- moves of uio.c recurse on the bytes, of which every round takes one at least; sfs_rwblock has
-- eleven attempts. A loop that runs out has no result, and the theorems on it say that it has one.
-- q_addtail and q_grow call one another two deep at most, since the ring that q_grow fills is larger
-- than what it holds.
--
-- Not modelled: devices (dev, arch/mips) but the disk, the rest of the simple file system (its short
-- vnode calls, mounting and writing back), the vnodes of devices and the locks of the VFS layer
-- (fs), runprogram, the other system calls, the menu and the tests, and user programs.
-- Within the modelled files: functions that only free, names and debug output, stack contents, the
-- machine part of a context switch, and the semaphores of the disk driver.
pub mod Prelude
pub mod Errno
pub mod Array
pub mod Queue
pub mod Bitmap
pub mod Scheduler
pub mod Thread
pub mod Synch
pub mod Coremap
pub mod AddrSpace
pub mod Process
pub mod Kheap
pub mod Libc
pub mod Printf
pub mod Copyinout
pub mod Uio
pub mod Lhd
pub mod Sfs
pub mod Vfs
pub mod LoadElf
