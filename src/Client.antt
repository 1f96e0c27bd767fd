-- ===== src/Client.antt =====
-- client.rs: the TCP client, its state, and the low-level exchange of a request and its response.
pub mod Command
pub mod State
pub mod Header
pub mod Scatter
pub mod Action
pub mod Exchange
pub mod Reader
pub mod Structs
pub mod Requests
pub mod Device
pub mod Lifecycle
pub mod Fixup
pub mod Tests
