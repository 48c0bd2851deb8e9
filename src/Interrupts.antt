-- ===== src/Interrupts.antt =====
-- nacl/src/arch/x86_64/interrupts.rs: the interrupt descriptor table and its handlers.
pub mod Servicing
use na_cl.Common.{ℕ, zero, suc, ◌+◌, ◌%◌, ◌^◌, ltb, ◌==◌, if◌then◌else◌, Option, none, some}
use na_cl.Machine.{
  Io, ret, panicked, spent, act, ◌>>=◌, ◌>>◌, ask, perform, load_idt, halt, get_timer, set_timer,
  get_scratch_timer, set_scratch_timer, sprint,
}
use na_cl.Apic.Local.{lapic, lapic_id, end_of_interrupt}
use na_cl.Cores.{max_num_cpus}

abbrev pub pic_1_offset : ℕ
pic_1_offset = 32

abbrev pub pic_2_offset : ℕ
pic_2_offset = pic_1_offset + 8

pub data InterruptIndex : Type 0 where
  timer scratch_timer : InterruptIndex

-- `as_u8` and `as_usize`
abbrev pub as_u8 : InterruptIndex → ℕ
as_u8 timer = 32
as_u8 scratch_timer = 33

pub data Handler : Type 0 where
  breakpoint_handler page_fault_handler timer_interrupt_handler : Handler
  scratch_timer_interrupt_handler : Handler
  double_fault_handler : ℕ → Handler

-- `IDT`, by vectors; the handler of double faults comes with the index of its stack.
unfoldable pub idt : ℕ → Option Handler
idt v =
    if v == 3
    then some breakpoint_handler
    else if v == 8
    then some (double_fault_handler 0)
    else if v == 14
    then some page_fault_handler
    else if v == as_u8 timer
    then some timer_interrupt_handler
    else if v == as_u8 scratch_timer
    then some scratch_timer_interrupt_handler
    else none

abbrev pub init_idt : Io (Unit {0})
init_idt = perform load_idt

-- `hlt_loop`, with fuel: it does not return.
unfoldable pub hlt_loop : ℕ → Io (Unit {0})
hlt_loop zero = spent
hlt_loop (suc fuel) = perform halt >> hlt_loop fuel

-- `cpu()`, by the number of the processor: an index out of bounds is a panic.
abbrev pub cpu_number : Io ℕ
cpu_number = do l ← lapic; id ← lapic_id l; if ltb id max_num_cpus then ret id else panicked

-- The code of a handler. The page fault handler also prints the accessed address, the error code
-- and the frame.
unfoldable pub handle : ℕ → Handler → Io (Unit {0})
unfolding hlt_loop
handle fuel breakpoint_handler = perform sprint
handle fuel (double_fault_handler stack) = panicked
handle fuel page_fault_handler = do
  perform sprint
  perform sprint
  perform sprint
  perform sprint
  hlt_loop fuel
handle fuel timer_interrupt_handler = do
  num ← cpu_number
  n ← ask (get_timer num)
  perform (set_timer num ((n + 1) % 2 ^ 64))
  l ← lapic
  end_of_interrupt l
handle fuel scratch_timer_interrupt_handler = do
  n ← ask get_scratch_timer
  perform (set_scratch_timer ((n + 1) % 2 ^ 64))
  l ← lapic
  end_of_interrupt l
