-- ===== src/Hayes.antt =====
-- driver/hayes.c and include/driver/hayes.h: the Hayes modem that stands in front of the SLIP
-- interface when ENABLE_HAYES is defined.
pub mod Types
pub mod Output
pub mod Frame
pub mod Info
pub mod Commands
pub mod Parse
pub mod Handler
pub mod Feed
pub mod Keeps
pub mod KeepsInfo
pub mod Moves
pub mod Ends
pub mod Endless
pub mod WellFormed
pub mod Total
pub mod Escape
pub mod Leave
mod Tests
