-- ===== src/Kernel.antt =====
-- nacl/src/main.rs: what the kernel does from the boot loader on, up to the executor.
pub mod Booted
pub mod Completion
pub mod Main
use na_cl.Common.{ℕ, ◌+◌, ◌-◌, ◌%◌, ◌^◌, Bool, true, false, Option, none, some, List, [], ◌∷◌}
use na_cl.Common.Outcomes.{Outcome, done, panic}
use na_cl.HashMap.{HashMap}
use na_cl.Machine.{Io, ret, panicked, spent, act, ◌>>=◌, ◌>>◌, perform, expect, sprint}
use na_cl.Memory.Frames.{Entry, FrameApi}
use na_cl.Memory.Heap.{PagingApi}
use na_cl.Memory.Init.{Root, Heap, memory_init}
use na_cl.Font.Console.{Framebuffer, Screen, putchar, new, white}
use na_cl.Font.Printing.{Output, insert_fbman, println}
use na_cl.Segments.{SegmentApi}
use na_cl.Arch.{AcpiApi, init_arch}
use na_cl.Interrupts.{hlt_loop}

-- What the kernel is built on.
pub record Platform : Type 1 where
  pub frames : FrameApi
  pub paging : PagingApi
  pub segments : SegmentApi
  pub acpi : AcpiApi
  pub hm : HashMap ℕ
  pub ft : List ℕ
  pub root : Root frames paging
  pub stack : ℕ
  -- Whether the allocator has room for so many bytes, when the grid of the screen is allocated.
  pub has_room : ℕ → Bool

-- The responses of the boot loader to the requests of the kernel.
pub record Limine : Type 0 where
  pub base_revision_is_supported : Bool
  pub hhdm_offset : Option ℕ
  pub memory_map : Option (List Entry)
  pub framebuffers : Option (List Framebuffer)
  pub rsdp_address : Option ℕ

-- A call that can panic.
abbrev pub of_outcome : {A : Type 0} → Outcome A → Io A
of_outcome (done a) = ret a
of_outcome panic = panicked

-- `Logger`: every record is enabled and printed, and nothing is kept to be flushed.
abbrev pub log_enabled : Bool
log_enabled = true

abbrev pub log_record : Io (Unit {0})
log_record = perform sprint

-- `panic_handler`: it prints, and then it does not return.
unfoldable pub panic_handler : ℕ → Io (Unit {0})
unfolding hlt_loop
panic_handler fuel = do perform sprint; hlt_loop fuel

-- `assert!`
abbrev pub assert : Bool → Io (Unit {0})
assert true = ret tt
assert false = panicked

abbrev pub first {ℓ} : {A : Type ℓ} → List A → Option A
first [] = none
first (x ∷ xs) = some x

module _ (platform : Platform) where
  open platform use {frames, paging, segments, acpi, hm, ft, root, stack, has_room}

  -- What `init` leaves in the kernel's statics: the heap, and the screen.
  pub record Statics : Type 0 where
    pub heap : Heap frames paging
    pub output : Output hm ft

  -- Before there is a screen, with interrupts disabled.
  abbrev pub no_output : Output hm ft
  no_output = record { fbman = none; interrupts = false }

  -- `init` from the frame buffer on.
  unfoldable pub with_screen : ℕ → Limine → ℕ → Heap frames paging → Framebuffer → Io Statics
  unfolding new putchar insert_fbman init_arch
  with_screen fuel limine physical_memory_offset heap frame_buffer = do
    fb ← of_outcome (new hm ft has_room frame_buffer)
    perform sprint
    fb' ← of_outcome (putchar hm ft fb 0x46 0 0 white 0)
    output ← of_outcome (insert_fbman hm ft fb' no_output)
    rsdp ← expect limine.rsdp_address
    init_arch segments acpi fuel stack physical_memory_offset
        ((rsdp + 2 ^ 64 - physical_memory_offset) % 2 ^ 64)
    ret (record { heap = heap; output = record output { interrupts = true } })

  -- `init`. Setting the logger succeeds, since it is done once.
  unfoldable pub init : ℕ → Limine → Io Statics
  unfolding memory_init with_screen
  init fuel limine = do
    physical_memory_offset ← expect limine.hhdm_offset
    addr ← of_outcome (paging.virt_addr_new physical_memory_offset)
    regions ← expect limine.memory_map
    heap ← of_outcome (memory_init frames paging root addr regions)
    frame_buffers ← expect limine.framebuffers
    frame_buffer ← expect (first frame_buffers)
    with_screen fuel limine physical_memory_offset heap frame_buffer

  -- What `kernel_start` prints; `version` is the text of its first line.
  unfoldable pub greet : List ℕ → Statics → Io Statics
  unfolding println
  greet version statics = do
    perform sprint
    after_version ← of_outcome (println hm ft version statics.output)
    after_ayo ← of_outcome (println hm ft (0x41 ∷ 0x79 ∷ 0x6F ∷ []) after_version)
    ret (record statics { output = after_ayo })

  -- `kernel_start` up to the executor.
  unfoldable pub kernel_start : ℕ → List ℕ → Limine → Io Statics
  unfolding init greet
  kernel_start fuel version limine = do
    assert limine.base_revision_is_supported
    statics ← init fuel limine
    greet version statics
