-- ===== src/Memory.antt =====
-- nacl/src/arch/x86_64/memory: the frame allocator, the kernel heap and the physical memory map.
pub mod Mapper
pub mod Frames
pub mod Heap
pub mod Init
