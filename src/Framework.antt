-- ===== src/Framework.antt =====
-- Package framework: contexts, the router, the dispatcher, stream writers and the client.
pub mod Quic
pub mod App
pub mod Client
pub mod Context
pub mod Handler
pub mod Router
pub mod Path
pub mod Validation
