-- ===== src/Console.antt =====
-- user/user_main.c: the configuration console, the task that runs it, and the Wi-Fi events.
pub mod Tokens
pub mod Quote
pub mod RoundTrip
pub mod Types
pub mod Show
pub mod Set
pub mod Commands
pub mod Events
pub mod Rings
pub mod Frame
pub mod Locked
pub mod Answer
pub mod Session
pub mod Netif
pub mod Led
pub mod Run
pub mod Reach
pub mod Strings
pub mod Passwords
pub mod Invalid
pub mod Shape
pub mod Widths
pub mod Wide
pub mod Start
mod TableModel
mod Tests
