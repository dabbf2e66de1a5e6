-- ===== src/Examples.antt =====
-- The example programs of the repository.
pub mod BasicServer
pub mod ChatHub
pub mod ItemStreams
pub mod MtlsPki
pub mod PushStreams
pub mod Starting
pub mod ApiServer
