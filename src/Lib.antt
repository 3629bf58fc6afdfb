-- ===== src/Lib.antt =====
-- The kernel of WaffleOS, an operating system for the i386 written in C. This library models those
-- parts of source/kernel/ that compute: memory, text, time, processes, input, interrupts, files, windows
-- and drawing.
--
-- Common: what the other modules share. Numbers are ℕ; a 32-bit word keeps its wrap-around by add32,
-- sub32 and mul32, and a C int that may be negative is the integer type of Common/Int.
--
-- Memory (core/memory.c): Memory/Heap is the chain of blocks behind `heap` with malloc and free, a
-- list in the order of addresses. A block's address is the sum of the sizes before it. Memory/Bytes
-- has memset, memcpy and memcmp on a memory that is a function from addresses to bytes, and
-- Memory/Calloc puts the two together. The loops are recursions on the number of rounds left.
--
-- Stdio (core/stdio.c): vsnprintf, printf and snprintf. Stdio/Digits turns numbers into digits,
-- with fuel for the 64 bits of the widest number, Stdio/Format is the state machine on the format
-- as a step function, and Stdio/Buffer the array of limited size. The arguments are a list of
-- values, and an argument of another kind than its conversion reads ends the run with none.
-- Stdio/Print is the second machine, of printf, which puts its output on the screen, with the
-- output of printf_float as a parameter, and Stdio/Bounded is snprintf, which has a loop of its
-- own.
--
-- Screen (core/stdio.c): the text memory and the cursor, with clrscr, scrollback, putc and puts. The
-- loops are recursions on the rows and columns left; that of a tab takes fuel for its four rounds.
--
-- Strings (libs/string.c): a C string is the list of its characters, an array a list of bytes. The
-- functions that write take arrays with enough room. int_to_str takes the number as its 32-bit word;
-- the least int, whose negation is undefined, is none. Whether the allocations of strsplit are served
-- is a parameter.
--
-- Uri (utils/httpClient/uriparser.c): uri_parse and its parts, over Strings, and uri_to_string,
-- over Stdio/Bounded. A position in the input is the rest of the string, and a copy past the end of
-- an array is an outcome of its own.
--
-- Scheduler (core/cpu_sched.c): the ready queue as the list of its control blocks. What a process does
-- while it runs is a parameter, the list of its own calls of add_process, and so is whether an
-- allocation is served. The loop takes fuel: one more than the number of processes that will run.
--
-- Timer (timers/timer.c): the two words of the tick count, sleeping, and the clock. A round of the
-- loop that sleeps halts up to the next timer interrupt and spends one unit of fuel.
--
-- Interrupts (core/idt.c, core/isr.c, core/isrs_gen.c): the interrupt descriptor table as a function
-- from the number of an interrupt to its gate, the handlers with the dispatch to them, and the masks of
-- the two controllers. Interrupts/Segments has the entries of core/gdt.c. What is written to ports is
-- a list. A stub's address is a parameter, and a handler is a number.
--
-- Paging (core/page.c): init_paging over the heap and the bytes of the memory. The walk of the
-- processor through the two levels is written out beside the theorem on it. Paging/Separation has what
-- two allocations in a row give.
--
-- Commands (core/cmd_executor.c): the table of commands, the tokens of a line and the dispatch, over
-- strcmp and strncpy of Strings. A message is the text that console_printf forms with vsnprintf; the
-- array it uses, with what is in it, is a parameter.
--
-- Fat (drivers/fat.c): cluster chains, reading, opening and closing of files, short names, and in
-- Fat/Directory the search of a directory, with fuel for each entry and one more round. Fat/Chains tells
-- the sectors of a file by the 12-bit entries of the table, and Fat/Slots the bytes of a directory by
-- its entries, both without the code that reads them. What the
-- drivers of the disk and the floppy read is a parameter, a function from the number of a sector to its
-- bytes. The loop of FAT_Read takes as many rounds as bytes are wanted at most.
--
-- Terminal (libs/apps/terminal.c): the text of the output buffer, its wrapping into lines, the part of it
-- that is shown, and the keys. What execute_command prints is a parameter.
--
-- Mouse (drivers/mouse.c): the interrupt handler on the packet state, fed with the bytes of the port.
--
-- Keyboard (drivers/keyboard.c): the interrupt handler and the line in its buffer. The characters
-- behind the end of the table of scan codes are a parameter. read_line takes the interrupts to come as
-- a list and gives back those that are left.
--
-- Windows (libs/ui/window_manager.c): the table of pointers with the window in front at its end, and
-- what creating, destroying and bringing a window to the front do to it.
--
-- Disk (drivers/disk.c, drivers/floppy.c): the addresses of sectors in 16-bit words.
--
-- Visualiser (libs/apps/cpu_visualiser.c): the stack of made-up processes, a step for each frame.
--
-- Graphics (libs/ui/graphics_context.c, drivers/display.c): pixels, lines, rectangles, arrows and text in
-- a buffer. Lines, arrows and text are generic in the routine that puts a pixel. The loop of a line
-- takes as many rounds as its two lengths together and one. Graphics/Spans has what clipping leaves of
-- a loop along one axis.
--
-- Ui (libs/ui/window_manager.c, libs/ui/ui_widget.c, libs/ui/events.c, libs/gui.c): windows with their
-- widgets in a store by address, over the table of Windows. Ui/Events has clicks and dragging; a
-- click's result is the call that it makes. What malloc returns and the addresses of the callbacks
-- are arguments. Ui/Canvas has the canvases of widgets and windows, whose pixels lie in the memory of
-- bytes, and Ui/Drawing has drawing them and all windows onto a drawing target in the same memory, with
-- the routines of Graphics; the loops of a copy read a pixel of the canvas when they put it. Ui/Frame
-- (libs/gui.c, libs/icons.c, libs/cursor.c) is a frame of the display, which is drawn to the back
-- buffer and copied to the frame buffer by memcpy. The back buffer has been allocated: without it
-- drawing would go to the frame buffer at once. What a callback does is a parameter, and so is what
-- the visualisers and the terminal do before the copy.
--
-- LinkedList (libs/datastructures.c): the singly linked list as the list of its nodes' bytes, with
-- appending and reading.
--
-- Not modelled: ports and registers, assembly, the boot loader (source/boot), the ports of disks, the
-- walk of a path, the taskbar with the fixed windows of the applications, fonts that are scaled, which
-- need floating-point numbers, and external/oslib, which is vendored.
pub mod Commands
pub mod Common
pub mod Disk
pub mod Fat
pub mod Graphics
pub mod Interrupts
pub mod Keyboard
pub mod LinkedList
pub mod Memory
pub mod Mouse
pub mod Paging
pub mod Scheduler
pub mod Screen
pub mod Stdio
pub mod Strings
pub mod Terminal
pub mod Timer
pub mod Ui
pub mod Uri
pub mod Visualiser
pub mod Windows
