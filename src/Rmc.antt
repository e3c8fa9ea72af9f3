-- ===== src/Rmc.antt =====
-- The RMC messages of nex/rmc: requests and responses.
pub mod Request
pub mod Response
