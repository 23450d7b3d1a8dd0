-- ===== src/Lib.antt =====
-- density, a C++ library of heterogeneous queues and of the allocators below them: a model of
-- include/density in the theory of functions and lists, with the theorems that hold of it.
--
-- The program. A heter_queue (include/density/heter_queue.h) keeps elements of any type in pages that
-- it asks of an allocator. In front of each element stands a control block, a word that is the address
-- of the next control block with three flags in its low bits: busy (an operation holds the block), dead
-- (nothing to consume) and external (the element is outside the pages). Producers put a block at the
-- tail, and take a new page where the page of the tail has no room; consumers walk from the head to
-- the first block that is neither busy nor dead, make it busy and at last dead, and dead blocks in
-- front are given back. The addresses are rounded by the alignment functions of
-- include/density/density_common.h.
--
-- A lifo_allocator (include/density/lifo.h) takes pages of the same allocator, puts a header in front of
-- each that leads to the page below, and hands out blocks behind its top; a block that no page holds
-- comes from the allocator itself. Blocks are given back in reverse order. lifo_buffer and lifo_array are
-- blocks of such an allocator, one for each thread.
--
-- Free pages wait in stacks that are linked by footers at their ends: PageStack for one thread, and
-- WF_PageStack for all threads, which a pop locks by a marker in place of the top
-- (include/density/detail/page_stack.h and wf_page_stack.h). New pages are cut from regions of memory of the
-- system, by an atomic addition or by a compare-exchange (include/density/detail/system_page_manager.h).
--
-- A PageAllocator (include/density/detail/page_allocator.h) belongs to one thread. It takes pages from its
-- private stacks, from the WF_PageStack of its current slot, from that of a victim slot, and at last from
-- the page manager, and gives pages back to the slots, or to its private stack if all calls fail. Eight
-- slots in a ring are shared by all threads. A page can be pinned, also while it is in a stack: it is then
-- not handed out again. An unpin that fails waits in a list of pending pages.
--
-- The files.
-- - Base: the names of the libraries that all files share, Boolean tests, lists with native lengths.
-- - Align, Align/Bits, Align/Rounding: include/density/density_common.h, uint_upper_align and the like,
--   with sums modulo 2 ^ 64 and masks as bit operations; same_page of heter_queue.h.
-- - Allocator: the allocator, a template argument of the queues, as a record of functions on a state,
--   with the documented behaviour that the queues rely on as the record IsAllocator.
-- - HeterQueue/Layout, State, Put, Consume: the constants, the memory, the put and the consume
--   operations of heter_queue.h, each by the name that it has there. The memory is one map for each
--   kind of object, by the address of the control block. An exception is the result `throw`, with the
--   state that it leaves. Constructors are given by their outcome, and destructors leave a trace.
-- - HeterQueue/Chain, Invariant: the chain of control blocks from the head to the tail, what the
--   contents of a queue are, and the invariant IsValid: the chain is finite and free of cycles, and the
--   pages and external blocks that the allocator has given out are those of the chain, each once.
-- - HeterQueue/Words, Sizes, Placement, Extend, Walk, Live: flags and addresses as arithmetic, and lists
--   of blocks. HeterQueue/Release, Cleaning, Consumer, Commit, Contents,
--   Clear: consume operations.
--   HeterQueue/Grow, Paging, Zeroed, Producer, Loop, Request, Inplace, Push: put operations.
-- - HeterQueue/Fixture, Examples: a concrete layout and queue, and the theorems at these.
-- - Effects: commands that can throw, with the state that an exception leaves; Distinct, Align/Pages,
--   Align/Multiples: lists without repetition, pages and multiples, which the parts share.
-- - Heap: a concrete allocator, on which the theorems are applied.
-- - Lifo/Layout, Operations: include/density/lifo.h, the constants and the operations of a
--   lifo_allocator. Lifo/Stack: the stack of living blocks that its state stands for. Allocation, Last,
--   Deallocation, Reallocation, Lifetime, Separate, Disjoint: each operation on that stack.
-- - Lifo/Buffer: lifo_buffer. Lifo/Array, ArrayStorage, ArrayTrace, ArrayScope: lifo_array, where its elements are and
--   when they are constructed and destroyed. Lifo/Fixture, Examples: the theorems at a concrete stack.
-- - PageStack/Operations: include/density/detail/page_stack.h, the members of PageStack on the footers of
--   pages. Segment, Sequential, Popping, Cutting: the list of pages that it stands for, and its operations
--   on that.
-- - PageStack/WaitFree: include/density/detail/wf_page_stack.h, the members of WF_PageStack, each cut at its
--   accesses of m_first, as steps of any number of threads. Conservation, Conserved, Population, Restoring: the
--   pages of the stack and of the threads under such steps. PageStack/Examples: concrete stacks.
-- - PageAllocator/Calls: include/density/detail/wf_page_stack.h, whole calls by one thread. CallSteps, CallLaws,
--   CallPops: what they do to the pages of a stack.
-- - PageAllocator/Operations, Pages: include/density/detail/page_allocator.h, the members of a PageAllocator by
--   their names there, on a state with the slots, the stacks of the thread, the footers and the bytes of
--   the pages. The page manager is a parameter (PageManager), with its documented behaviour in
--   PageAllocator/Source; that a call of a slot or a compare-exchange fails is given by an oracle, since other
--   threads cause it. Sums, Tops, Invariant: the invariant IsPool, by which each page is in one stack or in
--   the hand of the thread. SlotChanges, Changes, Growth, Steps, Pops, Rounds, Stealing, Unpinning: the parts of an
--   operation on that. Giving, Finding, Taking, Pins, Start: deallocation, allocation, pins and the
--   constructor. PageAllocator/Examples: concrete runs.
-- - Regions/Pages: include/density/detail/system_page_manager.h, allocate_page_from_region cut at its
--   accesses of m_curr, as steps of any number of threads. Handing: which pages they get. Creation:
--   create_region, on the operators new and delete as parameters. Regions/Examples: concrete regions.
--
-- Bounds and fuel. Walks take one unit of fuel for each control block of the chain and one more. The
-- loop of inplace_allocate takes two rounds, the second in a new page, and external_allocate nests
-- once. The theorems show that this is enough: no operation runs out of fuel. A request is below
-- 2 ^ 61 bytes, since the code does not test the sums of addresses for overflow, and pages lie in the
-- lower half of the address space. Requests for a lifo_allocator are multiples of its alignment, as it
-- asks, and at most 2 ^ 62 bytes. The loops of lifo_array that count a pointer down take one unit of fuel
-- for each element and one more; such a pointer wraps below the null pointer, so their theorems ask that an
-- element is not larger than the address of the first one. Walks along a stack of pages take one unit of fuel for each page, and
-- the creation of a region 24 for its requests. The sums of addresses in a region must not wrap with all
-- threads at once, as the code assumes. Memory orders are not modelled: the accesses of one atomic word are
-- taken in one order, and a thread writes other memory only where no other thread reads it.
--
-- The loops over the slots take one round for each of the eight slots, as the code does. The loops of the
-- page allocator along a stack take fuel of at least the number of pages that are known. In the model of a
-- PageAllocator other threads make calls fail, but do not change the slots between two calls of one
-- operation; the steps in PageStack/WaitFree are interleaved freely.
--
-- Not modelled: the lock-free, spin-locking and mutex variations of the queue, the function queues,
-- the default allocator, the list of regions, the runtime type (type erasure, a parameter
-- here), iterators, and the copy, move and swap of queues.
pub mod Base
pub mod Align
pub mod Allocator
pub mod Blocks
pub mod Distinct
pub mod Effects
pub mod Heap
pub mod HeterQueue
pub mod Lifo
pub mod PageAllocator
pub mod PageStack
pub mod Regions
