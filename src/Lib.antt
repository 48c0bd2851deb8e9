-- ===== src/Lib.antt =====
-- NaCl, a kernel for x86_64 with an asynchronous executor on each processor: `nacl/src`.
--
-- Parts and files:
-- Lock: the asynchronous mutex, nacl/src/task/lock.rs. `System` is the mutex with the program
--   counters of the contexts that use it, and each constructor of `Step` is one access to shared
--   memory by `MutexLockFuture::poll`, `lock_or_spin`, `try_lock` or the drop of a guard. Steps
--   interleave in any order; memory is sequentially consistent.
-- Task: nacl/src/task/mod.rs, identifiers, tasks and `Yield`; Task/Finding is `find_task`, and
--   Task/Collector nacl/src/task/gc.rs. Task/Interfaces and Task/Stealing are what the kernel relies
--   on of futures and of the worker queues in nacl/src/task/crossbeam.rs, a copy of the crate
--   `crossbeam-deque`.
-- Executor: nacl/src/task/executor.rs. `Core` is the executor with the worker queue of its `Cpu`;
--   `spawn`, `run_ready_tasks` and `sleep_if_idle` are the methods of the same names, and a poll of
--   a future may call wakers, which push into the same queue. Executor/Running is `run`, by turns, and
--   Executor/Turns the same turns as effects on the processor, with its interrupt flag.
--   Executor/Halting is `run` with interrupts between its steps: each constructor of `Own` is one step
--   of `run_ready_tasks` or `sleep_if_idle`, and a handler may wake tasks. Executor/Stranding is the
--   executors of all processors, whose rounds and steals come in any order; handlers are left out.
--   Executor/Astray adds a waker that is called on another processor.
-- Memory: nacl/src/arch/x86_64/memory/mod.rs and allocator.rs. Memory/Frames is the frame
--   allocator, a list of addresses still to be yielded; Memory/Heap maps the pages of the heap with
--   its frames; Memory/Init is `init`, and Memory/Mapper is mapper.rs.
-- Machine: how the parts below drive the hardware. A program is a tree of effects (instructions,
--   ports, volatile accesses, shared statics), each with what follows on every answer. A protocol
--   says which effects are allowed and which answers can come: `Safe` programs keep it whatever is
--   answered, and `Sure` ones also return. Machine/Boot is the protocol of a processor that boots.
-- Segments, Interrupts, Arch: nacl/src/arch/x86_64/gdt.rs, interrupts.rs, and mod.rs with acpi.rs;
--   each function is a program of the same name. Arch/Smp is smp.rs, which is not compiled.
-- Kernel: nacl/src/main.rs. `kernel_start` is the function up to its last line, which calls the parts
--   in the order of the source: Memory, Font, Arch. `kernel_main` in Kernel/Main goes on with the last
--   line: the processor of Cores, and the turns of its executor.
-- Serial: nacl/src/serial.rs under interleaved users; each step is one access to `INIT`, to the lock
--   or to the port. Serial/Nesting puts these users on processors: `_print` between the two halves of
--   `without_interrupts`, under interrupts and exceptions whose handlers print too.
-- BootTool: nacl_boot/src/main.rs, as actions on a host that can fail or panic; the host's files,
--   paths and programs are a record. BootTool/Images is `create_disk_images`, and Images/Copies says
--   what is relied on of files.
-- Font: nacl/src/font/mod.rs. `header` and Font/Mapping read the font file, Font/Glyph draws one
--   character into the frame buffer, Font/Console is the grid of characters, `FrameBufferManager`;
--   Console/Terminal is the terminal that it shows, with the canvas that the frame buffer has to equal,
--   on which `putc` paints.
--   Font/Printing is `FBMAN` with the macros that print. Font/Sharing is `_print` called by any number
--   of contexts, which interleave at every access to the mutex and between any two characters; each
--   stands for a processor with interrupts disabled, so that no handler prints within it.
-- Apic: nacl/src/arch/x86_64/apic.rs. Apic/Local and Apic/Controllers are its functions as programs.
--   `init_one` is what the loop of `init_ioapic` does with one controller, on a device with its
--   registers, which are written through the selecting address. Apic/Chips runs the programs on such
--   devices, at the addresses of the platform.
-- Cores: nacl/src/cores.rs. `Arrays` is `CPUS` and `STEALERS`, which `cpu` fills on first use.
--   Cores/Processor is `Cpu` with the cell that its executor stands in.
-- Time: nacl/src/arch/x86_64/time.rs, `udelay`, `mdelay` and `delay`. The timer's register and the
--   interrupt counter change on their own, and are given as what each read of them gives.
-- HashMap: the maps of `hashbrown`, used by the executor and the font.
-- Tests: concrete instances of the interfaces, and runs on them.
--
-- Numbers are natural numbers, and arithmetic of the kernel that can wrap is written with `%`, as
-- in a release build; sizes of the screen and offsets in the frame buffer and the font file are not
-- wrapped. A panic is an outcome; the one assertion of debug builds, in `insert_fbman`, is made.
-- Whether the heap has room
-- for the grid of the screen is a parameter, `has_room`; the other allocations of the kernel, those of
-- the maps included, are taken to succeed.
-- Interfaces to other crates are records of operations and of the laws that the kernel relies on.
--
-- Fuel: `run_ready_tasks` takes one unit for each round, `steal_from` and `search` one for each
-- attempt, `spin_ticks`, `wait_irq` and `wait_irq_after` one for each read, and `mdelay` one for each
-- interrupt besides. They give `none` or `spent` when it runs out. Futures may wake each other for
-- ever, steals may be retried for ever, and clocks may stop, so that enough fuel depends on these:
-- `IsFrugal`, `Calms`, `IsDry`, `Settles`, `ticking` and the hypotheses on the clocks say how. `hlt_loop` and
-- `run` do not return: fuel and the number of turns say how far they are followed.
--
-- Not modelled: the work-stealing deque, a copied crate; the text of what is printed on the serial
-- port and by the handlers, and formatting; the assembly and the code in comments of
-- nacl/src/arch/x86_64/smp.rs. The tables of descriptors, the
-- page table and the tables of ACPI are those of other crates, and stand as interfaces. The
-- stealers that an executor asks are given for each turn.
pub mod Common
pub mod HashMap
pub mod Lock
pub mod Memory
pub mod Task
pub mod Executor
pub mod Font
pub mod Apic
pub mod Machine
pub mod Segments
pub mod Interrupts
pub mod Serial
pub mod Kernel
pub mod Arch
pub mod BootTool
pub mod Cores
pub mod Time
mod Tests
