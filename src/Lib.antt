-- ===== src/Lib.antt =====
-- Toutatis is a small 32-bit kernel for x86: a physical frame allocator and paging, a heap on a
-- red black tree, threads with a round robin scheduler, interrupt handlers, and drivers for the
-- screen, the keyboard and the serial port. This library models its C code.
--
-- The parts and how they interact. The bitmap of kernel/paging.c says which physical frames are
-- taken; alloc_page and free_page of the same file take and release frames through it, and
-- get_page finds the page table entries. The heap of kernel/mem_alloc.c asks them for pages and
-- keeps its free blocks in the tree of kernel/rb_tree.c. The timer interrupt calls schedule_tick
-- of kernel/scheduler.c, which switches between the threads of kernel/thread.c. The keyboard
-- interrupt fills the buffer of kernel/keyboard.c and prints on the screen of kernel/vga.c,
-- which scrolls with memcpy and memsetw of kernel/string.c.
--
-- The files, each with child modules for what they prove and for tests:
--
-- Common: names of the libraries, lists, digits of a number (Bits), sums of numbers with no
-- digit in common (Joined), and memory as a function (Store).
--
-- Frames: the frame bitmap of kernel/paging.c. The bitmap is a function from a word's number to
-- the word; used_frames wraps at 2^32. The functions of the source keep their names.
--
-- Paging: the page tables of kernel/paging.c and kernel/paging.h. A page table entry is a record
-- of its fields, a table is named by its address, and the addresses that kmalloc_ap returns are
-- arguments. Clone has clone_page_directory, with a result that says that the kernel has
-- stopped, and Finalize the loops of paging_finalize, with as many rounds as pages.
--
-- Scheduler: kernel/scheduler.c with destroy_thread of kernel/thread.c. Threads stand in a store
-- under their addresses, and prev and next are addresses, so that aliasing is that of the code.
-- A walk over sleeping threads runs on fuel; the number of threads in the ring is enough.
--
-- Threads: kernel/thread.c and kernel/process.c, with scheduling_init and scheduling_finish of
-- kernel/scheduler.c. The stacks are words under their addresses; the fields of thread_t that
-- the scheduler does not read are a second store.
--
-- RbTree: kernel/rb_tree.c and kernel/rb_tree.h on a store of nodes at addresses. The colour of
-- a node is the last bit of its link[0], as the code packs it. The loops run on fuel, one unit
-- for each pass. Check has assert_tree, where the endless loop at a violation is a result.
--
-- Heap: kernel/mem_alloc.c and kernel/kheap.c. The free blocks stand in the tree of RbTree, and
-- the size of a block is the data of its node. The magic words and the footers are a store of
-- words of their own, beside that of the nodes: what the user writes into a block, and the links
-- of a node that lie under the user's bytes, do not show in it. A failed assertion is a result
-- that stops. The tree's loops run on the fuel of RbTree, alloc on one unit for each expansion
-- of the heap, and the padding of an offset on 28 rounds, one for each byte of the least block.
-- The pages of the heap are those of Paging; the addresses of new page tables are arguments,
-- although the kernel takes them from the heap itself. A NULL page table entry is the one at
-- address 0.
--
-- CString: kernel/string.c on a memory of bytes. A buffer does not cross the top of the address
-- space. The loops over strings run on fuel, and one more than the length of the string is
-- enough.
--
-- Keyboard: kernel/keyboard.c. The bytes of the interrupts that arrive while keyboard_getchar
-- waits are a list.
--
-- Utils: kernel/utils.c and kernel/utils.h on the memory of CString. itoa has fuel for 33
-- digits, more than a word of 32 bits has in any base, and the reading loops run on fuel, one
-- unit for each character.
--
-- Serial: kernel/serial.c as the list of the bytes that are sent, on the memory of CString. The
-- loop has one round for each byte of the length. Setup has serial_init as the bytes that go to
-- the ports.
--
-- Vga: kernel/vga.c on the memory of CString, with the cursor registers of the display.
--
-- Vnodes: kernel/vnode.c and kernel/vnode.h. A failed assertion is a result, and reclaim of the
-- file system is an argument.
--
-- Handlers: the table of interrupt handlers of kernel/system.c, one vector at a time. A row has
-- 50 slots, and the walks through it have fuel for all of them. Dispatch has the interrupt
-- routines of the same file, over Pic and Scheduler, and what a handler does is an argument.
--
-- Format: kernel/vsprintf.c on the memory of CString. An int is a word of 32 bits, the arguments
-- of a call are a function from their number to a word, and the array tmp has an address of its
-- own. The digits have fuel for 32, as many as a word has in base 2; the loops over the format
-- run on fuel, and three more than the length of a format without conversions are enough.
--
-- Syscalls: kernel/syscall.c and kernel/syscall.h, over Threads and Vga. A call returns, or the
-- processor goes on with another thread: thread_exit ends in the interrupt of switch_next, of
-- which only the call of the scheduler touches the threads; the rest of that interrupt stands in
-- Handlers.Dispatch.
--
-- Initrd: the ram disk, src/make_initrd.c, which writes the image, and kernel/initrd.c, which
-- reads it.
--
-- Boot: the memory map in kernel/main.c, and the log of kernel/logging.c over Format, Serial and
-- Vga. The walk through the map runs on fuel. A text longer than the array of kprintf ends the
-- model without a result.
--
-- Descriptors: the segment and gate tables of kernel/gdt.c and kernel/idt.c, and irq_gates of
-- kernel/pic.c. The tables are functions from an index to an entry.
--
-- Pic: the interrupt controllers of kernel/pic.c and the timer of kernel/pit.c.
--
-- What is not modelled. Calls of the log are left out, and outside Heap and Vnodes also the
-- assertions, which only stop the kernel: there a theorem assumes what the assertion asks for.
-- Saving and restoring the interrupt flag, control registers and port access without a result
-- have no counterpart. kernel/vfs.c has no function. The assembly files start the machine, and
-- what kernel/main.c does besides the memory map is a list of calls.
pub mod Common
pub mod Format
pub mod Frames
pub mod Paging
pub mod Scheduler
pub mod Serial
pub mod RbTree
pub mod CString
pub mod Keyboard
pub mod Vga
pub mod Vnodes
pub mod Handlers
pub mod Descriptors
pub mod Pic
pub mod Syscalls
pub mod Threads
pub mod Utils
pub mod Heap
pub mod Initrd
pub mod Boot
