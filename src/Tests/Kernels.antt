-- ===== src/Tests/Kernels.antt =====
-- nacl/src/main.rs: the kernel boots on a concrete machine.
use na_cl.Common.{
  In, ℕ, leb, none, ap, inl, inr, ◌+◌, ◌^◌, ◌≡◌, refl, Bool, true, false, some, List, [], ◌∷◌,
  arith,
}
use na_cl.Common.Outcomes.{done}
use na_cl.Machine.{Io, ret}
use na_cl.Machine.Protocol.{Safe, Sure}
use na_cl.Machine.Boot.{boot, reset}
use na_cl.Memory.Frames.{Entry, init, pages_from, region_pages, allocate_frame}
use na_cl.Memory.Frames.Usable.{IsMemoryMap}
use na_cl.Memory.Heap.{init_heap, map_pages}
use na_cl.Memory.Heap.Mapped.{heap_pages}
use na_cl.Memory.Init.{
  active_level_4_table, Root, Heap, HeapReady, memory_init, memory_init_succeeds,
}
use na_cl.Font.{header, u16_at, u32_at, byte_at}
use na_cl.Font.Utf8.{from_utf8}
use na_cl.Font.Mapping.{insert_all, scan, table_start, unicode_mapping}
use na_cl.Font.Glyph.{putc}
use na_cl.Font.Console.{
  write_str, put, put_inline, put_line_feed, newline, scroll, redraw, redraw_from, put_wrapped,
}
use na_cl.Kernel.{Platform, Limine, kernel_start}
use na_cl.Kernel.Booted.{IsFit, IsLimine, Booted}
use na_cl.Tests.Memory.{frames, paging, unmapped, roomy, unmapped_everywhere}
use na_cl.Tests.Fonts.{font, codes, glyphs, font-mapping, small}
use na_cl.Memory.Mapper.{new_mapper, phys_to_virt_ptr}
use na_cl.Apic.Local.{IoApicInfo}
use na_cl.Time.Calibrate.Ticking.{Volatile, ticking}
use na_cl.Arch.Wiring.{Covers, IsComplete}
use na_cl.Kernel.Completion.{IsBootable, kernel_start_completes}
use na_cl.Tests.Booting.{platform_info, apic, io_apic, pit, segments, acpi, play}

abbrev root : Root frames paging
root = record { level_4_table_frame = 0x1000; offset_page_table = λ a b. unmapped }

-- A reserved page, then a hundred usable ones.
abbrev pub regions : List Entry
regions =
    record { base = 0; length = 4096; entry_type = 1 }
    ∷ record { base = 4096; length = 409600; entry_type = 0 }
    ∷ []

regions-IsMemoryMap : IsMemoryMap 0 0 regions
regions-IsMemoryMap =
    IsMemoryMap.other _ _ _ (λ e. omega (arith, e))
      (IsMemoryMap.region _ _ _ refl
        (record { base_aligned = refl; length_aligned = refl; physical = omega arith })
        (omega arith) (IsMemoryMap.nil _))

abbrev pub platform : Platform
platform = record {
  frames = frames;
  paging = paging;
  segments = segments;
  acpi = acpi;
  hm = codes;
  ft = font;
  root = root;
  stack = 0x5000;
  has_room = λ n. leb n 102400;
}

abbrev pub limine : Limine
limine = record {
  base_revision_is_supported = true;
  hhdm_offset = some (2 ^ 46);
  memory_map = some regions;
  framebuffers = some (small ∷ []);
  rsdp_address = some (2 ^ 46 + 0xE0000);
}

small-IsFit : IsFit platform small
unfolding header u32_at u16_at byte_at
small-IsFit = record {
  mapping = some glyphs;
  readable = font-mapping;
  four = refl;
  wide = omega arith;
  tall = omega arith;
  columns = omega arith;
  rows = omega arith;
  few = omega arith;
  room = refl;
}

limine-IsLimine : IsLimine platform limine regions small
limine-IsLimine = record {
  lowest = 0;
  memory = refl;
  map = regions-IsMemoryMap;
  rest = [];
  screens = refl;
  fit = small-IsFit;
}

-- Where the two controllers are seen, and what the version register of the I/O APIC gives.
abbrev pub local : ℕ
local = 2 ^ 46 + 0xFEE0_0000

abbrev window : ℕ
window = 2 ^ 46 + 0xFEC0_0000

abbrev pub version_read : Volatile
version_read w a n = a ≡ window + 0x10 → w window ≡ some 1 → n ≡ 0x3_0020

only_one :
    (x : IoApicInfo)
    → In x apic.io_apics
    → (a : ℕ) × (phys_to_virt_ptr (new_mapper (2 ^ 46)) x.address ≡ some a)
unfolding phys_to_virt_ptr new_mapper
only_one x (inl e) = (window, rw e refl)
only_one x (inr i) = absurd i

covered :
    (a : ℕ)
    → phys_to_virt_ptr (new_mapper (2 ^ 46)) io_apic.address ≡ some a
    → Covers local 3 version_read a 0 2
unfolding phys_to_virt_ptr new_mapper
covered a e w n selected read =
    let at : a ≡ window = cc (e) in
    let version : n ≡ 0x3_0020 = read (ap (λ x. x + 0x10) at) (rw at at selected) in
    (2, omega (arith, version), refl)

complete : IsComplete local 3 version_read platform_info (new_mapper (2 ^ 46))
unfolding phys_to_virt_ptr new_mapper
complete = record {
  apic = apic;
  model = refl;
  local = refl;
  bsp = 0;
  boots = refl;
  pit = pit;
  source = refl;
  mapped = only_one;
  wired = inr (io_apic, inl refl, covered);
}

pub limine-IsBootable : IsBootable platform local 3 version_read limine regions small
unfolding active_level_4_table init region_pages pages_from
limine-IsBootable = record {
  loader = limine-IsLimine;
  supported = refl;
  offset = 2 ^ 46;
  higher_half = refl;
  addr = 2 ^ 46;
  canonical = refl;
  level_4 = 2 ^ 46 + 0x1000;
  table = refl;
  Free = λ t p. t p ≡ none;
  roomy = roomy;
  free = unmapped_everywhere heap_pages;
  many = omega arith;
  rsdp = 2 ^ 46 + 0xE0000;
  pointer = refl;
  described = record {
    tables = tt;
    read = refl;
    info = platform_info;
    parsed = refl;
    complete = complete;
  };
}

kernel_start_completes_example :
    Safe boot reset
      (kernel_start platform 400 (0x41 ∷ []) limine)
      (Booted platform regions small (0x41 ∷ []))
    × Sure
        (ticking local 3 version_read)
        (record { last = 7; unchanged = 0; written = λ a. none })
        (kernel_start platform 400 (0x41 ∷ []) limine)
        (λ q k. Unit)
kernel_start_completes_example =
    kernel_start_completes platform local 3 version_read 400 (0x41 ∷ []) limine regions small
      (record { last = 7; unchanged = 0; written = λ a. none }) limine-IsBootable
      (omega arith, omega arith) (omega arith)

abbrev returned : {A : Type 0} → Io A → Bool
returned (ret a) = true
returned _ = false

-- The kernel reaches its executor on that machine.
kernel_reaches_executor :
    returned (play 500 0 reset (kernel_start platform 400 (0x41 ∷ []) limine) []).1 ≡ true
unfolding kernel_start init_heap map_pages pages_from allocate_frame init region_pages
    unicode_mapping header u32_at u16_at byte_at scan insert_all table_start from_utf8 putc
    write_str put put_inline put_line_feed newline scroll redraw redraw_from put_wrapped
kernel_reaches_executor = refl

memory_init_succeeds_example :
    (h : Heap frames paging) × (memory_init frames paging root (2 ^ 46) regions ≡ done h)
    × HeapReady frames paging regions h
unfolding active_level_4_table init region_pages pages_from
memory_init_succeeds_example =
    memory_init_succeeds frames paging (λ t p. t p ≡ none) root (2 ^ 46) (2 ^ 46 + 0x1000) 0 regions
      roomy regions-IsMemoryMap refl (unmapped_everywhere heap_pages) (omega arith)
