-- ===== src/Rules.antt =====
-- The rules on fields that internal/store applies before a record is written.
pub mod Subnet
pub mod Sites
pub mod Machines
pub mod Remote
