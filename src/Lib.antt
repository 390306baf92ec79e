-- ===== src/Lib.antt =====
-- The opsys kernel is a small L4-like microkernel for 32-bit i386 machines. This library models
-- the parts of src/kernel/bin and src/libc0 that keep state and decide, and proves what makes
-- them correct. Each file begins with the source file that it is about; paths are from the root
-- of the repository.
--
-- The parts and how they interact. Most queues of the kernel are intrusive doubly linked lists
-- (src/kernel/bin/list.c), whose nodes are members of the structures that they connect. The
-- physical memory manager (pmem.c) keeps one byte per page frame, with a type and a reference
-- counter, under a semaphore. Tasks (task.c) and threads (tcb.c) take their ids from bit sets
-- (bitset.c). The timer (timer.c) keeps its alarms in a list that list_enqueue_sorted builds,
-- and programs one timer driver for the first of them. An address space (vmem.c,
-- arch/i386/vmem_32.c) is a page directory under a semaphore; its page tables (pagetbl.c,
-- pagedir.c) hold references to page frames of the physical memory manager. Interrupts (irq.c)
-- go through a list of handlers for each line. The scheduler (sched.c) keeps the threads in one
-- list for each priority and sets an alarm for the next switch.
--
-- - Base and its child modules: the names that all parts share, lemmas on lists and bits, error
--   numbers.
-- - LinkedList: list.c and list.h. A node is an address, 0 is NULL; Links is the store of all
--   next and prev fields, so that aliasing is what it is in memory. LinkedList.Chain says what
--   a ring is, Enqueue, Dequeue and Sorted hold the operations' theorems.
-- - Pmem: pmem.c and pmem.h. The map is a list of bytes; an access behind its end is none, an
--   error is a value. map_sem is a count of slots, which an operation takes and gives back;
--   taking it with no slot is none. Frame is about one byte, Loops about the loops over frames,
--   Alloc, Refs and Types about the operations, Lifetime about sequences of them, Zero about a
--   request for no frames.
-- - Bitset: bitset.c. The array is a list of bytes; an access outside it is none.
-- - Semaphore: semaphore.c and spinlock.c. A thread is the address of its wait node;
--   sched_switch is a parameter, a function to the state in which it returns. Waiters is about
--   semaphore_leave and semaphore_try_enter, Handover about a thread that waits for a slot and
--   gets it. Pmem and Vmem use the semaphore as a count of slots.
-- - Task: task.c, tcb.c and src/kernel/include/tid.h. The page-frame lookup of the address
--   space and the register setup, which tcb_init calls, are parameters: any function that
--   returns a frame or an error. Ids is about tasks, Threads about threads, Tid about combined
--   ids.
-- - Sched: sched.c and sched.h. A thread is the address of its list node; the record holds the
--   store of these nodes, the current thread and the fields of the control blocks that the
--   scheduler reads. An assertion that fails is a result of its own. tcb_switch is a parameter,
--   a function to a result and to the state at its return, in which other threads may have run.
--   Queues is about the invariant of the run queues, Select about the searches, Switch about
--   sched_switch, Init about sched_init.
-- - Irq: irq.c and irq.h, with cli_if_on and sti_if_on of arch/i386/interupt.c. A handler is
--   the address of its list node. The functions of the handlers and of the interrupt controller
--   are parameters; their calls are recorded in their order. Handle is about handle_irq,
--   Install about handlers that come and go.
-- - Ipc: ipc.c. A message is the address of its list node; the calls of vmem_map_pages_at are
--   recorded, and sched_switch is a parameter. The spin locks of the threads are left out.
--   Queue is about ipc_recv, Sending about ipc_send_and_wait.
-- - IpcMsg: ipcmsg.c, ipcmsg.h and src/kernel/include/ipc_consts.h. Flags is about the fields
--   of the flag word.
-- - Libc: src/libc0/lib/string.c, on a memory that is a function from addresses to bytes.
--   Memory is about memcpy, memset and memcmp, Strings about strlen.
-- - VmemArea: vmemarea.c, vmemarea.h and arch/i386/vmemarea_32.c, the table of areas and its
--   search. Partition says that the areas divide the address space.
-- - Page: arch/i386/page.h, pageframe.h, pagetbl.h, pte.c, pde.c and their headers, on 32-bit
--   words. Spans is about the number of pages in a range, Entries about what entries keep.
-- - Paging: arch/i386/pagetbl.c and pagedir.c. Paging.Machine is the machine: the frame
--   allocator of Pmem, the words of all page frames, the page directory register and the paging
--   flag. A pointer to a table or a directory is the index of its page; once paging is on, a
--   page is found by the documented two-level walk of the i386 through memory, without large
--   pages, as after a flush of the TLB. An access to a page that is not present is a fault.
--   Entry is about one entry, Balance about the references that a table holds, Frames about
--   ranges.
-- - Vmem32: arch/i386/vmem_32.c. Temp is the part with the temporary mappings, Setup the part
--   before paging. Mapped, Lookup, Walk and Absent are about temporary mappings and the lookup
--   of a frame, Check and Probe about the search for unused entries.
-- - Vmem: vmem.c and vmem.h. An address space is the address of its struct vmem; sem holds the
--   free slots of its semaphore, pd its page directory. Setup makes address spaces. Search is
--   about the searches for empty pages, Turns and Progress about two threads that enter the
--   semaphores of two address spaces in the order of semaphore_enter_ordered and take turns.
-- - Timer: timer.c and drivers/timer/timer.h. An alarm is the address of its list node. The
--   results of the callbacks are a parameter; the calls are recorded in their order. Handle is
--   about handle_timeout, Update about the rest.
-- - Ports: arch/i386/ioports.c. The byte that an instruction reads from a device is any
--   function of the instructions before it; the instructions are recorded. Pic, I8254, Kbd and
--   Vga are given a device this way.
-- - Pic: drivers/i8259/pic.c. Pic.Cascade is about the lines of the second interrupt
--   controller.
-- - I8254: drivers/i8254/i8254.c and drivers/timer/timer.c, on Irq, Timer and Ports. I8254.Rate
--   is about the rate of the interrupts and the time that they count.
-- - Kbd: drivers/i8042/kbd.c, on Irq and Ports. Kbd.Wait is about the loops that wait for the
--   controller, Kbd.Init about kbd_init. The port instructions of install_irq_handler are not
--   in the history of the keyboard.
-- - Vga: drivers/multiboot_vga/multiboot_vga.c and drivers/crt/crt.h, on Ports and Libc.
--   Vga.Writes is about the memory that is written. Console: console.c, on Vga. Console.Format
--   is about console_printf. The digits of a number are a list, so that the bounds of the
--   buffer of 12 bytes are not seen.
-- - Ram: loads and stores of several bytes in the memory of Libc, which Memzone, Elf and Boot
--   read and write.
-- - Memzone: memzone.c and alloc.c, on Bitset, Vmem and Ram. Flags and Marks are about the
--   flags of chunks, Unused about the search, Size about the chunks of a new zone, Heap about
--   kmalloc and kfree, whose addresses are not taken modulo 2^32.
-- - Elf: elfldr.c, elf.h and loader.c, on Ram, Libc and Vmem. Elf.Exec compares loading with a
--   run over the list of program headers.
-- - Boot: arch/i386/multiboot.c, which reads the boot loader's information with Ram and calls
--   Pmem and Vmem. Boot.Claims and Boot.Maps are its second half, Area is about the place of
--   the map of page frames, Counts about the claims of the kernel's sections.
-- - Descriptor: arch/i386/gdt.c, idt.c and idtentry.c. Layout is about what the processor reads
--   from the entries.
--
-- Bounds and fuel. Frame bytes, bit-set bytes and time stamps keep their 8 and 32 bits by
-- explicit remainders. Loops over arrays recurse on what is left of the array. The loops over
-- list nodes (list_enqueue_sorted, handle_timeout, handle_irq, semaphore_leave and the searches
-- of the scheduler), the waits for a spin lock and the loop of strlen run on fuel, and their
-- theorems state that fuel above the number of items, or of characters, is enough. The search
-- of pmem_alloc_frames runs on fuel too; the operation gives it one more round than the map has
-- frames, and its theorem shows that this is enough. The search for empty pages in an address
-- space has one round more than its range has pages, and each round moves on by at least one
-- page; a theorem shows that it ends. The waits for the status register of the keyboard
-- controller run on fuel for each wait, on a device that answers in fewer reads; the search for
-- unused chunks has one round more than there are chunks; the loop over the program headers has
-- 2^16 rounds, more than a number of headers of 16 bits; the loops over the boot information
-- run on fuel, and the theorem on them takes the lists that they read as given.
--
-- Not modelled: the interrupt flag that the timer clears and restores, the assertions outside
-- the scheduler, the page-fault handlers, the system calls and the system server, the helpers
-- that make tasks and threads, the registers of a thread, the order of multiboot_init and the
-- loading of modules, the mapping of device memory, and the assembly; what the kernel prints on
-- the console is modelled as console_printf, but not in the functions that call it.
pub mod Base
pub mod Bitset
pub mod Boot
pub mod Console
pub mod Descriptor
pub mod Elf
pub mod I8254
pub mod Ipc
pub mod IpcMsg
pub mod Irq
pub mod Kbd
pub mod Libc
pub mod LinkedList
pub mod Memzone
pub mod Page
pub mod Paging
pub mod Pic
pub mod Pmem
pub mod Ports
pub mod Ram
pub mod Sched
pub mod Semaphore
pub mod Task
pub mod Timer
pub mod Vga
pub mod Vmem
pub mod Vmem32
pub mod VmemArea
