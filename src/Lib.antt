-- ===== src/Lib.antt =====
-- A verification library for the WaddleOS kernel: the C code of kernel/, lib/ and loader/, as definitions
-- that compute, and theorems about them.
--
-- Base holds what the parts share: Boolean tests, arrays, machine words, the bits of a number, and the
-- outcomes of a run. An ASSERT that fails is the outcome `halt`, an access outside the modelled memory
-- is `fault`, and a loop that has used up its fuel is `spin`.
--
-- The parts, each with the file of the repository that it follows:
--   Bitmap      kernel/drivers/bitmap.c: bitmaps of 64-bit words. View reads a bitmap as a function;
--               Set, Clear, Flip and Search hold the theorems. An int is shifted by its count modulo 32.
--   LinkedList  kernel/sched/list.c: the circular list. Nodes is the store of heads and elements, Ring
--               says what a list is, Link and Unlink are _list_insert and _list_remove. Sequence is the
--               abstract view, which Refine relates to the code. list_foreach runs on fuel. The length
--               is an int: where it would exceed 2^31 - 1, the outcome is a fault.
--   Memory      lib/string.c: memory as bytes by address, little-endian fields in it, and the memory
--               routines.
--   Wdmalloc    kernel/mem/wdmalloc.c: the kernel heap in such a memory. The walks along the free list
--               get as many rounds as the heap has bytes, and one more. Blocks is the heap as a list of
--               blocks, with the invariant that relates it to the memory; Tiling, Links and Heap say
--               which writes keep it. Search, Split and Take are the steps of wdmalloc on it, which
--               Malloc puts together; Loose, Join and its kin, Neighbours and Coalesce those of wdfree,
--               for Release. Reached is the histories of both, Live the addresses that callers hold, and
--               Separate the heaps without neighbouring free blocks.
--               Print is the printer that test builds have, without the text of its lines, and Dump is
--               about it.
--               Carve, Merge and Undo are about heaps whose lowest block is the only free one. The
--               invariant is for heaps of fewer than 2^15 + 12 bytes: a larger first block has the bit
--               of its size field set that marks an allocation.
--   Machine     lib/io.h: port accesses as a trace, and the state that the drivers share. What a device
--               answers is a function of the trace, part of the initial state.
--   Pic, Pit, Idt, Interrupts
--               kernel/drivers/pic.c, pit.c, idt.c and interrupts.c, and the names in interrupts.h. The
--               addresses of the assembly stubs and what a handler does are parameters; the handlers
--               send their messages with Log.
--   Serial      lib/serial.c. Waiting for the line status polls on fuel.
--   Term        lib/term.c: the text screen. Position is term_readcursor, which uses ports.
--   Printf      lib/printf.c: the bytes that the output device gets. Pieces reads a format string as
--               a list of conversions.
--   Log         lib/log.h, and printf on the first serial port, whose polling runs on fuel.
--   Multiboot   kernel/drivers/multiboot_parser.c: the search of the boot information, on fuel.
--   Sched       kernel/sched/scheduler.c: the task control block, in memory, and next_tid beside it.
--   Paging      kernel/mem/paging.c and paging.h: entry fields, the memory map, the page pools, which
--               use Bitmap, and the page tables, which Walk reads as the architecture has it, apart
--               from the macros. Sorted is the reference for the sort of the memory map. The bitmaps of
--               the pools are values apart from memory: that they lie in pages of the kernel pool, where
--               an allocation of such a page could overwrite them, is not modelled.
--   Loader      loader/boot1/main.c: the boot loader, with the assembly routines of boot1.S
--               as parameters. Sectors says what load_sector_asm does: it reads the sectors
--               from 12 up to 2^15 - 1, and writes to its packet and its stack as well. Elf is
--               the loop over the program headers, Tags the multiboot header and the boot information,
--               Run the whole of main. load_sector gets a round for each sector, and at most 24 are
--               read in one; the loop over the request map gets 32, one for each bit of the map; the
--               loops over tags and over the memory map run on fuel, since their length is up to the
--               data. The messages on the serial port are left out.
--   Kernel      kernel/main.c: the parts above, in the order of kernel_main; Timer is about its calls for
--               the timer alone. The delay between two greetings is left out.
--   Tests       the theorems below that have conditions, at concrete inputs.
--
-- Not modelled: the assembly and the test programs.
pub mod Base
pub mod Bitmap
pub mod Memory
pub mod Wdmalloc
pub mod Machine
pub mod Pic
pub mod Idt
pub mod Interrupts
pub mod Pit
pub mod Serial
pub mod Term
pub mod LinkedList
pub mod Printf
pub mod Multiboot
pub mod Sched
pub mod Paging
pub mod Loader
pub mod Log
pub mod Kernel
pub mod Tests
