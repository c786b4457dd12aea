-- ===== src/Program.antt =====
-- The two XDP programs and what they share: the actions, the common head of both programs, and the
-- verdict it leads to.
pub mod Action
pub mod Sock
pub mod Event
pub mod Walk
pub mod Delivery
pub mod Agreement
pub mod Redirects
