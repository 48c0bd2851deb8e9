-- ===== src/Tests.antt =====
-- Runs of the kernel's parts on concrete inputs, with concrete instances of what they are built on.
mod Mutex
mod Tasks
mod Memory
mod Fonts
mod Delays
mod Registry
mod IoApics
mod Booting
mod Kernels
mod Devices
mod Tools
mod Rounds
mod Disks
mod Turns
mod Printing
mod Screens
mod Stealing
