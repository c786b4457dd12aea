-- ===== src/Tests.antt =====
-- Tests of the definitions on packets that can be followed in the source, and the properties at
-- concrete inputs.
pub mod Data
mod Bytes
mod Programs
mod Frames
pub mod Kernel
mod Loader
mod Links
mod Variants
pub mod Drivers
mod Readers
mod Xsk
mod Constructors
mod Bytecode
mod Ring
mod Client
mod Linked
mod Ending
