-- ===== src/Lib.antt =====
-- xv6 for RISC-V, a teaching kernel in C, modelled component by component.
--
-- The parts and their files:
--   Lock      kernel/spinlock.c: acquire, release, holding, push_off and pop_off, as functions of
--             one processor, and in Lock.Race as steps of many, one memory access each.
--   Sleep     kernel/sleeplock.c: locks held over sleeps.
--   Log       kernel/log.c: the redo log over a store of buffers and disk blocks. A crash keeps the
--             first writes of a list and loses the buffers; Log.Reserve runs the calls' events.
--   Pipe      kernel/pipe.c: the ring of 512 bytes, by segments of a call under the pipe's lock.
--   Proc      kernel/proc.c: the process table, with fork, exit, wait, sleep, wakeup and kill.
--   Kalloc    kernel/kalloc.c: the free list of pages, run through the pages' own words.
--   Bytes     kernel/string.c: memmove, string comparison and copy on bytes by address.
--   Files     kernel/file.c: reference counts, and reads and writes by the file's type.
--   Bcache    kernel/bio.c: the buffers in the order of their use, with bget, bread and brelse.
--   Fs        kernel/fs.c: the free bitmap in Fs.Alloc, inodes and their cache in Fs.Inode, the
--             content of files in Fs.Content, directories and paths in Fs.Names; and in Fs.Calls
--             the system calls on paths of kernel/sysfile.c.
--   Descriptors  the calls on descriptors of kernel/sysfile.c, the arguments of kernel/syscall.c,
--             and pipealloc of kernel/pipe.c.
--   Console   kernel/console.c: the buffer of the line that is typed and of those to be read.
--   Uart      kernel/uart.c: the ring of bytes to send, and the interrupt.
--   Virtio    kernel/virtio_disk.c: the descriptors of requests, without the device.
--   Sysproc   kernel/syscall.c and kernel/sysproc.c: strings and words of users, and the calls
--             sys_rename and sys_sleep.
--   Kprintf   kernel/printf.c: the formats, as the bytes printed.
--   Printf    user/printf.c: the same for the user library.
--   Ulib      user/ulib.c: strings, memory and numbers.
--   Vm        kernel/vm.c: page tables in the allocator's memory, and copies to and from users.
--   Shell     user/sh.c: the scanner and the parser.
--   Grep      user/grep.c: the matcher, against the language of an expression, and the lines of a
--             file.
--   User      the copyin and copyout that pipes call, as an interface.
--   Services  what kernel/proc.c asks of memory and files, as an interface.
--   Common    tests, lists, families and the libraries' names.
--
-- How they meet: proc.c calls kernel/vm.c and kernel/file.c through Services, pipe.c calls
-- copyin and copyout through User, and the log calls the buffer cache, which Log.Store stands
-- for. Descriptors works on the table of Files and its interface, Fs.Calls on the inodes and
-- directories of Fs; uart.c hands the bytes that arrive to console.c; and Sysproc works
-- on the memory of Vm, with its copies of strings. fs.c changes blocks of its own view,
-- Fs.Blocks, and notes what it logs; vm.c works on the memory of Kalloc. A sleep ends a segment
-- of a call; what runs in between is a list of events.
--
-- Numbers are natural numbers; `uint` counters and pids wrap at 2^32, addresses at 2^64. The
-- loops of the code run over a list or a count, and a spin, a sleep or the tail call of wait is
-- one step that may come again. Loops on fuel: freerange's, for more pages than lie below the
-- end; filewrite's, readi's and writei's, copyout's, copyin's and copyinstr's, for as many
-- rounds as bytes, since a round does one byte at least; mappages', for more pages than lie
-- below MAXVA, where walk panics; those of uvmalloc and uvmcopy, for more pages than the new
-- size has; those of directories, for one entry more than the directory has, and namex's, for
-- one round more than the path has bytes; freewalk's, for the 3 levels of a page table; the
-- parser's, for one call more than the line has bytes; uartstart's, for the bytes of the ring;
-- ctrl-U's, for the bytes of the line; printint's, for the 32 digits of a word in base 2;
-- free_chain's, for more descriptors than there are; virtio_disk_intr's, for the entries of a
-- ring. strlen's, strcpy's and strcmp's is a parameter that has to go past the NUL.
--
-- Not modelled: the registers of devices, traps and the assembly; exec and sys_exec; the calls of
-- kernel/sysproc.c that pass their arguments on; user/umalloc.c, the part of the shell that runs
-- commands, and the other user programs; and mkfs, a tool of the build that writes the disk's image.
pub mod Bcache
pub mod Bytes
pub mod Common
pub mod Console
pub mod Descriptors
pub mod Files
pub mod Fs
pub mod Grep
pub mod Kalloc
pub mod Kprintf
pub mod Lock
pub mod Log
pub mod Pipe
pub mod Printf
pub mod Proc
pub mod Services
pub mod Shell
pub mod Sleep
pub mod Sysproc
pub mod Uart
pub mod Ulib
pub mod User
pub mod Virtio
pub mod Vm
