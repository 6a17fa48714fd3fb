-- ===== src/Lib.antt =====
-- A model of the ParadoxOS kernel, with the theorems that make its parts correct.
--
-- The kernel boots with a memory map, from which the physical memory manager makes a bitmap of pages;
-- the heap takes a run of pages from it; processes take their control blocks from the heap and their
-- stacks from the page allocator; interrupts feed the drivers, whose characters reach the line buffer
-- of standard input, and whose mouse events move the windows of the desktop; and the loader copies user
-- programs to memory, where they find their arguments on the stack.
--
-- Base holds what the parts share: tests, arrays as lists, counted loops and the bits of a byte.
-- Pmm models src/kernel/pmm.cpp: `Pmm` is its static variables; an address is a number and null is 0.
-- Heap models src/kernel/heap.cpp: the linked list of headers is a list of blocks with their addresses.
-- Process models src/kernel/process.cpp: control blocks stand in a store, a function from pointers, so
--   that the links of the ready queue alias as they do in the program.
-- Stdin models src/kernel/stdin.cpp, and Elf src/kernel/elf.cpp.
-- Keyboard models src/kernel/keyboard.cpp: scan codes and the ring buffer, with the line buffer of Stdin.
-- Vga models src/kernel/vga.cpp: the cells, the cursor and the printing of numbers.
-- Vfs models src/kernel/vfs.cpp: nodes in a store, with the list of children as the program links it.
-- Pic and Timer model src/kernel/pic.cpp and src/kernel/timer.cpp; the timer drives the scheduler.
-- Syscall models src/kernel/syscall.cpp over Process, Stdin, Timer and Vga.
-- Diskfs models the directory of src/kernel/diskfs.cpp.
-- Mouse models src/kernel/mouse.cpp: the packets of the mouse, the cursor and the edges of the buttons.
-- Framebuffer models src/kernel/framebuffer.cpp: the back buffer and its copy to the hardware.
-- Gui models src/kernel/gui.cpp: Gui.Terminal its cells and cursor, Gui.Windows the table of windows and
--   the order of painting, Gui.Calculator the calculator, and Gui.Input the clicks, keys and the tick,
--   over the events of Mouse and the files of Vfs. Of drawing it has what the clicks read, the
--   buttons and the rows of files, and no pixels; saving to disk is a record that stands for
--   src/include/diskfs.h.
-- Usermode models src/kernel/usermode.cpp: the words of the arguments and the frame on the stack; the
--   jump to the program is a parameter, and so is what the memory holds behind the buffer of words.
-- Shell models src/kernel/shell.cpp: the line that is typed, how its command is found, and the commands on
--   files; the other built-in commands are a parameter.
-- Pci models src/kernel/pci.cpp: the devices are a function from the address of a register to its value.
--
-- Numbers are natural numbers; `uint64_t` and `uint32_t` arithmetic that can wrap is written with its
-- remainder. Loops over an index are recursion on the rounds left. `scheduler_remove` follows pointers
-- and is on fuel: a theorem shows that more fuel than the queue is long is enough. The halving loop of
-- `heap_init` has 12 rounds, more than the 8 halvings from 2048 down to below 16.
--
-- The walks of Vfs along the children and of sys_exit along the ready queue have fuel for their length,
-- and 33 rounds are enough for the doubling of a capacity, as their theorems show. The rows of files are
-- drawn from the first 64 children: there are at most 64 rows, and behind a row that has no place there
-- is no other. A tab of the terminal has 8 rounds, after which its loop has ended. The decimal digits of
-- the calculator have 20 rounds, enough for 64 bits. Coordinates of the screen and the numbers of the calculator are
-- integers: where they leave the 32 or 64 bits, the program is undefined.
--
-- Serial messages, the registers of devices, the assembly for context switches and
-- interrupts, the pixels of the desktop and the fonts are not modelled: they have no state that the
-- rest reads. Paging, the ATA driver and the descriptor tables are left out as well.
pub mod Base
pub mod Pmm
pub mod Heap
pub mod Process
pub mod Stdin
pub mod Elf
pub mod Vga
pub mod Pci
pub mod Keyboard
pub mod Vfs
pub mod Pic
pub mod Timer
pub mod Syscall
pub mod Diskfs
pub mod Mouse
pub mod Framebuffer
pub mod Gui
pub mod Usermode
pub mod Shell
