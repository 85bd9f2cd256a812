-- ===== src/Desk.antt =====
-- internal/remoteflow and internal/remoteopen: opening a remote session of a device. The children
-- are the addresses of desktop clients, the wait for the device, the choice of a client, and the
-- manager that owns the sessions it has started.
pub mod Urls
pub mod Reach
pub mod Flow
pub mod Registries
pub mod Worlds
pub mod Leaks
pub mod Upkeep
pub mod Custody
pub mod Profiles
pub mod Conduct
