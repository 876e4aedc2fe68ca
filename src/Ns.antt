-- ===== src/Ns.antt =====
-- src/ns.c, the name server: its state, its registry of servers, and its control port.
pub mod State
pub mod Registry
pub mod Control
pub mod Invariant
pub mod Nodes
pub mod Notices
pub mod Servers
pub mod Removals
pub mod Acts
pub mod Greetings
pub mod Handlers
pub mod Serve
pub mod Effects
pub mod Bye
pub mod Lookups
pub mod Withdrawals
pub mod Clients
pub mod Hello
pub mod Main
