-- ===== src/Examples.antt =====
-- Runs of the definitions, and instances of the theorems, at concrete inputs.
mod Packets
mod Wakes
mod Powers
mod Brokers
mod Desks
mod Endpoints
mod Fleets
mod Updates
mod Downloads
mod Upgrades
mod Stores
mod Rules
mod Inventories
mod Probes
