-- ===== src/Lib.antt =====
-- SO-REALTIME: a 64-bit kernel with a shell, its memory managers, drivers and user library in C.
--
-- The parts and the files that model them, with paths from the repository's root:
--   Kernel/lib.c: KernelLib. Memory is a function from addresses to bytes.
--   Kernel/system/MemoryManagement/kmem.c and pmem.c: Memory/Chunks has the first-fit list of chunks that
--     both files keep, Memory/Kmem the kernel's heap (kmalloc, kfree, kcalloc, init_kheap), Memory/Pmem
--     the heap of a process (pmalloc, pfree, pcalloc, pinit_heap). The abstract view is the list of
--     blocks in use, in Memory/Chunks/Blocks.
--   Kernel/system/MemoryManagement/buddy.c: Memory/Buddy, a tree whose nodes are blocks of the kernel's
--     heap. Memory/Buddy/Contract says what its operations promise of the blocks in use,
--     Memory/Buddy/Runs is about any sequence of them, and Memory/Buddy/Display has what buddy_print draws.
--   Kernel/system/MemoryManagement/memlib.c: Memory/Memlib, which hands out whole pages from the buddy
--     system and passes process requests to Memory/Pmem.
--   Kernel/system/include/process.h: Process, the record that holds a process's heap.
--   Kernel/system/sharedMemory/shared.c: Shared, named blocks over Memory/Kmem and Memory/Memlib, with the
--     strings of Kernel/util/util.c in Util.
--   Kernel/kernel.c: Kernel, the start, which joins most of the other parts; Kernel/Boot is about what it
--     sets up. Kernel/system/interrupts.c: Interrupts, the descriptor table and the two handlers.
--     Kernel/SharedRuns has the two runs of the shared memory there.
--   Kernel/system/scheduling/scheduling.c: Scheduler, the ring of processes, which no other part uses yet.
--   Kernel/system/timer.c: Timer, the table of tasks that the timer interrupt runs.
--   Kernel/system/rtc.c: Rtc. The clock chip is a parameter, with its registers' behaviour as a hypothesis.
--     Rtc/Corner is about the clock in the corner of the screen.
--   Kernel/drivers/video.c: Screen, the text screen with its cursor.
--   Kernel/system/video/bga.c: Graphics, with the system calls that draw. The ports are a parameter.
--   Kernel/drivers/keyboard.c and include/keyboard_map.h: Keyboard, the ring of keys.
--   Kernel/system/syscalls.c: Syscalls, the calls that read keys, read the data module, write, and set and
--     show the clock; Syscalls/Handlers has the other calls, and Syscalls/Dispatch the table.
--   Kernel/naiveConsole.c: Console, and Kernel/moduleLoader.c: Loader, the text and the copying at start-up.
--   Toolchain/ModulePacker/main.c: Packer, which writes the image that Loader reads; Packer/Boot is about the
--     loader's run on an image, and Packer/Options has the parsing of the arguments.
--   Userland/CodeModule/lib: Userland/Ctype (ctype.c), Userland/Strings (string.c), Userland/Stdlib (atoi in
--     stdlib.c), Userland/Numbers (the conversion of numbers in stdio.c) and Userland/Stdio (printf, fgets
--     and sscanf there, over Numbers; Fields and Words are about lines of several fields), and
--     Userland/Calls and Userland/Heap (syscalls.c and stdlib.c, the stubs of the system calls).
--   Userland/CodeModule/shell/shell.c: Shell, the line, the table of commands, the search for one and its
--     arguments, and the user's name.
--   Userland/CodeModule/shell/commands.c: Commands, with Commands/Help and Commands/Printf. A command joins
--     Shell, Userland/Stdio and the system calls of Syscalls, Rtc and Timer: Commands/Clock goes from
--     the words of a line to the clock, Commands/Sleep from an argument to the timer.
--     Commands/Fractal is the command that draws lines of the data module.
--   Userland/CodeModule/shell/fractals.c: Fractals, over Graphics: Fractals/Escape is about the inner loops
--     and Fractals/Images about the pixels. The arithmetic on double is a parameter.
--   Userland/CodeModule/tests/tests.c: Commands/RunTests, what the command tests runs.
--   Userland/CodeModule/_loader.c: Userland/Start, which clears the memory of the code module.
--   Userland/CodeModule/codeModule.c, with shell.c and commands.c: Session, the loop over the keys. It runs
--     the commands on the state of the machine: Session/Typing is about the keys of a line,
--     Session/Commands about the way from the keys to a command and back to the prompt.
--
-- Static variables are a record that an operation takes and returns. Pointers are addresses, and 0 is NULL;
-- an access through NULL is the outcome `fault`. Words are numbers, with their wrap-around written out
-- where the code can meet it; a signed one is negative from half of its range on. -1 as a 64-bit word is
-- `minus_one`.
--
-- Loops are recursion on what they walk, or on fuel: `buddy_alloc` has one unit for each byte of the
-- node and one more, and a node of n bytes splits fewer than n times; `timer_handler` has one for
-- each task and one more; `num_to_base` has 32, the digits of a word in base 2; `sscanf` and the
-- command `printf` have one for each character of the format and one more; `wait` has one for each
-- tick and one more; the loop of the shell has one for each key, and `fractal` one for each line. That
-- this is enough is part of what is shown of them: a result of theirs is stated to exist.
--
-- Not modelled: the assembly, Pure64 and BMFS, which come from other projects, addProcess of the scheduler,
-- which uses a node that is never set.
pub mod Prelude
pub mod Commands
pub mod Console
pub mod Fractals
pub mod Graphics
pub mod Interrupts
pub mod Kernel
pub mod KernelLib
pub mod Keyboard
pub mod Loader
pub mod Memory
pub mod Packer
pub mod Process
pub mod Rtc
pub mod Scheduler
pub mod Screen
pub mod Session
pub mod Shared
pub mod Shell
pub mod Syscalls
pub mod Timer
pub mod Userland
pub mod Util
