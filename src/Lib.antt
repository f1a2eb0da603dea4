-- ===== src/Lib.antt =====
-- A verification library beside the BedrockStack kernel (kernel/, Rust): models of the parts that carry
-- its own logic, in total functions, with the theorems that make them correct.
--
-- The parts and how they interact. Every object of the kernel lies in one namespace, the unispace; a
-- path is parsed (kernel/src/unispace/path.rs), and each access of a task is checked against the
-- capabilities the task holds (kernel/src/caps/mod.rs). Tasks get capabilities when they are spawned
-- (kernel/src/unispace/provider/proc.rs) or by later grants (kernel/src/task/mod.rs), and the lineage
-- of tasks says whose descendants a task may name. Below lie the allocator of physical frames
-- (kernel/src/mm/phys_alloc.rs), the queue that carries input events from interrupt handlers to the
-- main loop (kernel/src/input/queue.rs), the queue of pending timers
-- (kernel/src/services/timer_queue.rs), the run lists of NTFS
-- (kernel/src/filesystems/fstypes/ntfs/runs.rs), the clusters of FAT32 volumes
-- (kernel/src/filesystems/fstypes/fat32), and the partition code that confines file systems to
-- their part of a disk (kernel/src/filesystems/partition).
--
-- Which file models what:
--   Base             shared names, tests on numbers, lists, byte strings, Rust's Result
--   Unispace         the error enumerations; Unispace/Path the parser of paths (`parse`), its round trip
--   Task/Lineage     `LINEAGE` as an association list; `is_ancestor`, `lineage_chain`, `lineage_gc`
--   Task/Sched       the scheduler of kernel/src/task/mod.rs: the lists and the hand-over of tasks, the
--                    wake-ups; Switch what running tasks do (`sleep_until`, `exit_current`, `kill`,
--                    `wait`); Handover `schedule` and the end of a switch; Reap `reap_dead`;
--                    Run the interleavings, Safe and Alarm what holds of all
--   Caps             `Perm`, `Cap` and the limits
--   Caps/Lookup      `has_perm`, `has_ancestor_r`, and their forms on components, `has_perm_on`,
--                    `has_ancestor_r_on`; Caps/Alias `canonicalize_proc_alias`
--   Caps/Check       `check_path` on the current task and `check_path_on` on given capabilities
--   Caps/Validate    `validate_cap`, `is_subset`, and the gate of `spawn_with_caps`
--   Caps/Grant       `grant_to_current` and `grant_cap_to_pid`; Caps/Listing `filter_listing` and its
--                    form on components
--   Mm/Frames        `BitmapAllocator`: Startup `new`, Alloc `alloc`, Contig `alloc_contig_core` and
--                    the functions on it, Release `free`, `free_frames`, `reserve_region`, Count
--                    `count_free_locked`
--   Mm/Heap          the free list of kernel/src/mm/heap.rs: `push_free` and `alloc_inner`, in Push,
--                    Insert and Returns the one, in Alloc the other, in Correct both
--                    together; Arena the reservations of `heap_grow`
--   Mm/FrameCounts   kernel/src/mm/framecnt.rs: the steps of `share_frame`, `decref_or_free`, `unshare`
--                    and `privatize`; Ledger the owners that the table stands for
--   Input/Queue      `InputQueue`: its steps, `push` and `pop`; Run the interleavings of all callers
--   Services/TimerQueue  `TimerQueue`: `insert`, `cancel`, `remove`, `drain_expired`
--   Filesystems/Ntfs  Runs `decode_mapping_pairs` and `RunList::find` of kernel/src/filesystems/
--                    fstypes/ntfs/runs.rs
--   Filesystems/Fat32  `parse_bpb` and the methods of `Bpb` in kernel/src/filesystems/fstypes/fat32/
--                    bpb.rs, with their bounds in Geometry, and what a parse accepts in Geometry/Parse; Table the entries of fat.rs; Chain
--                    `chain_len`, `truncate_chain` and `free_chain`; Alloc `alloc_clusters`: Bitmap the
--                    candidates, Write and Scan the table, Claim, Promise, Correct and Full the
--                    results; Extend `extend_chain` and the data of clusters; Mount the scan of
--                    free clusters and the information sector
--   Filesystems/Partition  `PartitionDevice`, `check_overlaps`; Mbr the parser of kernel/src/
--                    filesystems/partition/mbr.rs, Gpt of gpt.rs beside it; Probe `probe`
-- The tests and the applications of the theorems stand in modules named Tests.
--
-- How code is modelled. A `str` is the list of its bytes. A function that changes state takes the state
-- and returns it; one that fails returns a Result with the constructors of the kernel's error types (the
-- partition code's messages are a data type, a constructor for each). Machine arithmetic has its wrap
-- written out where it can wrap. A bitmap is the function from an index to its bit, a sector the function
-- from an offset to its byte. A FAT32 volume has the sectors as the cache and the device give them, and
-- a function that says which accesses the device fails, so that a theorem holds for all failures. What the current process is and which tasks descend from it enters the
-- checks as a record; what the page allocator answers to a grant, and what a disk answers to a read, are
-- parameters. A block of the heap's free list is its address and its size, a header in it; a fault is `none`,
-- a loop that never ends an answer of its own. The queue's atomic accesses are steps of a relation, one constructor for each access, and
-- every interleaving of the callers is a sequence of steps; so are the atomic updates of the frame counts
-- and the reservations of heap chunks, and what tasks and CPUs do to the scheduler's lists.
--
-- Bounds and fuel. The walks over the lineage run for two rounds more than it has entries, and
-- Task/Lineage/Walk shows that the walks end by then. The scans of the frame bitmap recurse on the
-- number of words and on the 64 bits of a word, as the kernel's loops do; the main loop of
-- the contiguous allocation has `2 * total + 4` rounds, which Mm/Frames/Contig/Effect shows to be
-- enough. The chain of extended boot records has the kernel's own bound of 100 rounds; the
-- decoder of mapping pairs has a round for each byte and one more, and each reads a byte. The loops over
-- FAT32 chains have the kernel's own bounds, counted down, and a chain never reaches them
-- (Filesystems/Fat32/Chain/Spec); the walk over the heap's list has the kernel's bound of a million
-- blocks; the scan of the table has a round for each of its sectors.
--
-- Not modelled: the byte layout of the capability window in user memory and the table of initial
-- capabilities; providers behind the namespace; the machine's part of context switches and of the end of tasks; page
-- tables; the mapping, the reclaim and the caches of the heap; the file systems but for NTFS run lists and FAT32 clusters; device drivers, which are register
-- access; the boot loader, user programs and vendored crates. Locks are not modelled: an operation under a lock
-- is one step, and so are `schedule` and `kill`, which take several locks in turn. `reap_dead` is two steps, with the
-- places of the orphans read in between. A debug build is a state with `debug`, or an argument of that name. Serial and log output is left out.
pub mod Base
pub mod Unispace
pub mod Task
pub mod Caps
pub mod Mm
pub mod Input
pub mod Filesystems
pub mod Services
