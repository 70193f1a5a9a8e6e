-- ===== src/Lib.antt =====
-- VenomOS is a small x86-64 kernel in C++. This library models the parts of the kernel that decide
-- what memory a program gets and what it may touch, and proves what they promise.
--
-- Parts, with the files that they model:
--   Pmm        kernel/pmm.cpp, pmm.hpp: the allocator of 4 KiB frames below 1 GiB. `Pmm` is its
--              bitmap and its counter; `init` takes the entries of the memory map that the boot
--              loader leaves at 0x9000 and the address of `kernel_end`.
--   Bitmap     the bitmap of pmm.cpp: one bit for each frame, eight to a byte.
--   Heap       kernel/heap.cpp: kmalloc and kfree. `Heap` is the list that the block headers make
--              through their `next` fields, each block with the address where its header stands,
--              and the bounds of the heap. It takes frames from Pmm when it must grow.
--   Elf        kernel/elf.cpp, elf.hpp: `validate`, check by check, over the bytes of a file.
--   Paging     kernel/paging.cpp, paging.hpp: four-level page tables. `Tables` gives each table,
--              named by its frame, its 512 entries; `Machine` adds the frame allocator.
--   Usercopy   kernel/usercopy.cpp: the check of a user range and the two copies.
--   Process    kernel/process.cpp, process.hpp: the page flags and the pages of a segment, the first
--              contents of the stack, and in Process/Run `run`, which turns a file into a ready task.
--   Fat32      kernel/fat32.cpp: the read-only FAT32 driver. The disk is the reader that `mount` is
--              given, a function from a block address to a sector or a failure. Files holds the
--              directory walk and paths, Read the read of a file, Names the 8.3 names.
--   Ata        kernel/ata.cpp: reads and writes of disk sectors. `Drive` is what the disk stores, how
--              each of its waits ends, and the countdown of `debug_fail_next`.
--   Fs         kernel/fs.cpp, fs.hpp: VenomFS. `Fs` is the file table, the bitmap and the drive.
--              Format holds the layout on the disk with format and init, Blocks the searches for
--              free blocks, Files the operations on files, Owners and Consistent what the bitmap
--              says of the table.
--   Syscall    kernel/interrupts.cpp: `handle_syscall` and `copy_user_path`. `System` is all that
--              the calls act on.
--   Keyboard   kernel/keyboard.cpp: the ring of characters and the decoding of scancodes.
--   Task       kernel/task.cpp, task.hpp, scheduler.cpp: process identifiers, the table of tasks and
--              the round robin. A task is named by its slot. Task/Life has the creation and the end
--              of tasks, with `Kernel`, which adds the heap and the page tables.
--   Vga        kernel/vga.cpp: the text screen and its cursor.
--   Snake      kernel/snake.cpp: the game, without its drawing.
--   Base       numbers, words that wrap, bits, bytes, results, loops that copy bytes.
--
-- A part's module holds the definitions; the modules below it hold its theorems, and its module
-- Tests the runs on small inputs. Heap and Paging call Pmm; Usercopy reads the tables of Paging;
-- Process calls Elf, Paging, Pmm, Fs and Task; Fs calls Ata; Task calls Heap and Paging; Syscall calls
-- Task, Keyboard, Vga, Fs and Usercopy.
--
-- Words are natural numbers with the wrap-around written out (`u64`, `u32`). Memory is a function
-- from addresses. Registers that the code reads, such as CR3, are arguments. Loops over a range
-- are structural recursion on the rounds that are left: 512 for a page table, one for each managed
-- frame in `alloc_frame`, 257 attempts in `kmalloc`. The loop of `validate_user_range` has no
-- bound of its own; it runs on as many rounds as there are pages in the range. The walks of
-- fat32.cpp take as many steps as the volume has clusters, which is the code's own bound.
-- `spawn_food` of snake.cpp may look for ever on a full board; it runs on the rounds it is given and
-- answers nothing when they are used up. `find_free_extents` of fs.cpp runs on one round more than
-- there are data blocks, `SYS_WRITE` on one for each chunk of 256 bytes and two more. The walks over
-- the children of a task take at most as many steps as there are tasks, which is the longest list of
-- distinct tasks; where the loop of `exit_current` would go on after that, it answers nothing. A system
-- call ends as a value of `Handled`: it returns, or the caller has ended, or another task runs first.
--
-- In Fs a name or a buffer is its bytes, and a wait of the drive may end badly at any time, so every
-- failure of the disk is covered. Process keeps the bytes that a program sees apart from the entries of the page tables, although
-- both stand in frames. Interrupts are off in the operations of the heap, so each runs whole.
--
-- Not modelled: the TLB and the processor's control registers (protect_kernel_image, nx_enabled),
-- port I/O (the ports and `init` of ata.cpp, the 8042 controller, the cursor of the screen), the
-- descriptor tables and the fault reports of interrupts.cpp, the shell and the demos, the self tests,
-- the contents of a new task's stack and `init` of task.cpp.
pub mod Base
pub mod Bitmap
pub mod Pmm
pub mod Elf
pub mod Heap
pub mod Paging
pub mod Usercopy
pub mod Process
pub mod Fat32
pub mod Keyboard
pub mod Task
pub mod Vga
pub mod Snake
pub mod Ata
pub mod Fs
pub mod Syscall
