-- ===== src/Spec.antt =====
-- What the programs promise, with no pointers and no byte order: a frame is taken apart layer by
-- layer, each layer giving the octets that are left.
pub mod Layers
pub mod Frame
pub mod Policy
