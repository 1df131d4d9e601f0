-- ===== src/Runtime.antt =====
-- The tables of bootstrap/actor.c that actors share.
pub mod Refs
pub mod Registry
pub mod Ets
pub mod Slots
pub mod App
pub mod Timer
pub mod Agent
pub mod Stage
pub mod Flow
pub mod Ring
pub mod Qsbr
pub mod GlobalQueue
pub mod Mailbox
pub mod Links
pub mod Channel
mod Cells
pub mod Exit
