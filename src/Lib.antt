-- ===== src/Lib.antt =====
-- HelixKernel: a verification library for the kernel's own code under kernel/src.
--
-- The parts, and the files that model them. `initialise` of mm/pmm.cpp reads the memory map of the
-- boot loader and cuts every usable segment into blocks; `alloc` and `free` then split and join
-- those blocks. The C library works on bytes of memory. The interrupt manager owns the descriptor
-- table and hands out protection keys. HLEC keeps the kernel's events and calls back. The page
-- tables take their pages from the page allocator, and uACPI calls the kernel through a wrapper.
--
-- Prelude: shared names, Boolean tests, lists, integers of C, the bit operations.
-- Pmm (kernel/src/mm/pmm.cpp): the buddy allocator. `Memory`, `Run` and `Cover` say which pages a
--   free list holds; `Order`, `Split`, `Buddy`, `Find`, `Alloc`, `Free` follow the operations;
--   `Initialise` and its children follow the boot loader's map; `Cycle` joins them. A free list is
--   the sequence of its block addresses; `Linked` has the lists as the source keeps them, each block
--   linked through its first word, and the walk along a list on fuel, of which more than the list is
--   long is enough. The loops over orders take 64 rounds of fuel, enough as an order is below 16 and a size below 2^64.
-- Klibc (kernel/src/klibc/cstring.cpp, cctype.cpp): memory is a function from address to byte.
--   Addresses do not wrap. A loop that ends at the zero byte takes fuel, and the theorems ask for
--   more fuel than the string is long. `Token` has the functions that cut, search and duplicate
--   strings, `Number` those that read numbers.
-- Hlec (kernel/src/hlec/hlec.cpp): events on a heap, linked by address. `Chain` gives the list of
--   addresses that a manager holds. A walk takes fuel; more than the chain is long is enough.
-- Vmm (kernel/src/mm/vmm.cpp): the direct map, and the copies between user and kernel memory on the
--   bytes of Klibc.
-- Paging (kernel/src/mm/vmm.cpp): the page tables on a memory of 64-bit words, with the pages of Pmm;
--   also the calls of liballoc_wrapper.cpp and of the uACPI wrapper that map, unmap and take pages.
--   The loop of `munmap` takes fuel; more than the number of pages is enough. `Tree` takes the tables
--   as a tree of the pages that Pmm gave away, without large pages, and `Tree.View` as one function
--   from addresses to entries; `Calls` has histories of calls by callers that hold memory.
--   The words are those of the direct map, by which the kernel reaches its tables, and which is taken
--   to stay as the boot loader made it: where a call puts other pages there, the model does not follow
--   the kernel's own accesses. `Tree.Lower` and `Calls` are about calls on the lower half, which the
--   direct map is no part of. The processor's cache of translations is not modelled.
-- Io (kernel/src/resources/io.cpp, klibc/vector): the vector of port ranges, with its handles as
--   addresses, the bytes that stay behind the elements, and the port calls of the uACPI wrapper.
-- Uacpi (kernel/src/extra/uacpi/uacpi_kernel_wrapper.cpp): events, interrupt handlers and the small
--   calls. A wait takes fuel, one unit for each turn, and an argument says what happens, in order,
--   between the turns. Each turn reads memory again, though `signaled` is not volatile.
-- Entry (kernel/src/entry.cpp): the command line, cut into the arguments of `main`. The room of the
--   stack is an argument.
-- Boot (kernel/src/main.cpp): `main` over the parts that it brings up, until uACPI starts. `malloc`
--   is an argument.
-- Protocols (kernel/src/protocols/graphics.cpp, memmap.cpp, rsdp.cpp, and klibc/cstdio.cpp's start of
--   the terminal): the boot loader's answers are arguments.
-- Exception (kernel/src/arch/x86_64/idt/idt.cpp): the values that the exception report prints.
-- Irq (kernel/src/arch/x86_64/idt/idt.cpp): the interrupt table as a function from number to
--   entry, and the descriptors. The address that malloc(1) returns is an argument.
-- Gdt (kernel/src/arch/x86_64/gdt/gdt.cpp): the descriptor of the task state segment, and the stacks
--   in it; an index outside the arrays stands for the memory around them. The addresses of the static
--   objects are arguments.
-- Mutex (kernel/src/mutex/mutex.cpp): step relations on one lock and the places of its threads; a
--   read and the write after it are two steps, or one where nothing interrupts.
-- Locks (kernel/src/mutex/mutex.cpp, the mutex calls of the uACPI wrapper): the calls of one thread,
--   with what the others do as an argument. A wait takes fuel, one unit for each turn, and each turn
--   reads memory again, though `locked` is not volatile.
-- Pci (kernel/src/pcie/pcie.cpp, the PCI calls of extra/uacpi/uacpi_kernel_wrapper.cpp): a call
--   returns the port writes that it makes; the value that a port reads is an argument.
--
-- Not modelled: the heap (kernel/src/extra/liballoc/liballoc.c), console output and its formats,
-- assembly, and the libraries kept under kernel/src/extra. Memory that `malloc` and `strdup` return
-- is an argument of the model.
pub mod Prelude
pub mod Boot
pub mod Entry
pub mod Exception
pub mod Gdt
pub mod Hlec
pub mod Io
pub mod Irq
pub mod Klibc
pub mod Locks
pub mod Mutex
pub mod Paging
pub mod Pci
pub mod Pmm
pub mod Protocols
pub mod Uacpi
pub mod Vmm
