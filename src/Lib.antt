-- ===== src/Lib.antt =====
-- LumenOS, a kernel for i386: its C library and the drivers of its first stage.
--
-- Parts and files. Each file names the source that it is about; a function of the source keeps its
-- name, and the files below a part's file hold the properties of that part.
--   Prelude    the names that all files share, lists, integers and bits
--   Memory     the flat memory: bytes, words of 16 and 32 bits (Memory/Words), C strings (Memory/Text)
--   Strings    src/stdlib/string.c: Copy (memmove, memcpy, memset), Scan (strlen, strchr, strstr),
--              Compare (memcmp, strncmp, strcmp), Assign (strncpy, strcpy), Token (strtok,
--              and the loop over all tokens in Token/Loop)
--   Heap       src/stdlib/stdlib.c: malloc and free. Arena is what they promise on a list of blocks,
--              Chain how such a list lies in memory, Blocks, Layout and Frame the lemmas about it; Clients is
--              about the programs that use the heap
--   Stdio      src/stdlib/stdio.c: Itoa, Printf and Sprintf are the functions, Args is the list of arguments,
--              Text the text that a format stands for, Printf/Shown is about the screen as a terminal
--   Port       src/stage0/io/port.c: the port instructions, over a history of accesses
--   Serial     src/stage0/serial/serial.c
--   Buffer     src/stage0/buffer: byte and character buffers
--   Vga        src/stage0/vga: the text screen. Place is about the cursor, Cells about the characters,
--              Terminal about the two together
--   Keyboard   src/stage0/io/kbd_mouse.c: Ring is about the circular buffer, Keys and Backspace about the keys,
--              Interrupts about interrupts between the accesses of kmain's loop to the buffer
--   Gdt, Idt   src/stage0/gdt/gdt.c and src/stage0/idt/idt.c: the processor's tables, the dispatcher
--              and the interrupt controllers
--   Disk       src/stage0/disk/disk.c: Command is about the registers of the drive, Wait about the loops
--              that wait for it, Read and Write about the data
--   Multiboot  src/stage0/multiboot/multiboot.c: the search for a boot module
--   Fat        src/stage0/fat: the memory disk and mounting. Directory is the search for a file, File the reading
--              of one; Stale in both is about reads that are out of range
--   Kernel     src/stage0/stage0.c: kmain. Panic and Mount are about the ways it ends, Shown about the cursor, Loop and Silent
--              about the keys, Typed about the types of all variables, as are the files of that name elsewhere
--
-- How the parts interact. malloc writes to the serial line when the heap is full; the screen
-- writes its cells through a character buffer and the cursor through ports; a key press reads a
-- port, moves the cursor of the screen and may write to the serial line; the dispatcher calls the
-- keyboard; the search for a boot module uses strstr; printf puts characters on the screen and
-- sprintf into memory; the file system copies sectors of a boot module with memcpy through the
-- pointers of a back end; kmain calls them all. A part's state is a record, and an operation
-- takes the old state and returns the new one; the bus is a list of the accesses, newest first.
--
-- Numbers. Bytes, words, sizes and pointers are natural numbers. Where the code can wrap, the
-- reduction modulo a power of two is written out (u8, u16, u32); an argument of a narrow type is
-- a number below its bound. Pointer sums do not wrap, as C leaves that undefined. A char is its
-- byte; an int that is returned as a difference is an integer, the int that itoa takes is its bit
-- pattern.
--
-- Loops. A loop that counts recurs on the rounds left. A loop over a string or a list in memory
-- and a wait for a device run on fuel, and give none (Search.out_of_fuel in Multiboot) without
-- enough of it. The theorems take fuel above the length of the string or the number of blocks, or
-- as many rounds as the device needs to get ready, or fuel above the size of a read, and show
-- that the code then ends.
--
-- Parameters. A device answers a read from a port by a function of the history. The theorems that
-- need a serial line or a drive that gets ready say so (GetsReady, IsPrompt). The back end of the
-- file system is the memory disk or any pair of functions. The addresses of the heap,
-- of the tables, of the interrupt stubs and of the buffers of the file system (Places) are
-- parameters, since the linker and the compiler choose them, and so is what the calls before leave
-- in the part of the stack that becomes the boot record's buffer. The local buffers for a cluster
-- have 4096 bytes; a function that would read a larger cluster gives none.
--
-- Not modelled: interrupts between two statements of kmain, but for their work on the keyboard's
-- buffer (Keyboard/Interrupts); the assembly files; the host tools under util.
pub mod Prelude
pub mod Memory
pub mod Strings
pub mod Port
pub mod Serial
pub mod Heap
pub mod Buffer
pub mod Vga
pub mod Keyboard
pub mod Stdio
pub mod Gdt
pub mod Idt
pub mod Multiboot
pub mod Kernel
pub mod Disk
pub mod Fat
