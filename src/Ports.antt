-- ===== src/Ports.antt =====
-- The ports to processors (port/arm, port/riscv): what port/sertos_port.h promises to the kernel,
-- as the files of the repository carry it out.
pub mod Words
pub mod CortexM
pub mod M0
pub mod M0plus
pub mod M23
pub mod M3
pub mod M4
pub mod M7
pub mod M33
pub mod M55
pub mod RiscV
pub mod Posix
pub mod Contexts
pub mod Bindings
pub mod Core
pub mod Critical
pub mod Masks
pub mod Frames
pub mod Clock
pub mod Compare
pub mod Systick
