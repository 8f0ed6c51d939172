-- ===== src/Tests.antt =====
-- Runs of the definitions at small inputs, and the theorems at inputs that meet their hypotheses.
mod Scanning
mod Ring
mod Bodies
mod Heads
mod Decoding
mod Paths
mod Queries
mod Requests
mod Connections
mod Packets
mod Pools
mod Forms
mod Addresses
