-- ===== src/Prudp.antt =====
-- nex/prudp: the reliable datagram protocol under the game services.
pub mod Packet
pub mod V0
pub mod V1
pub mod Kerberos
pub mod Server
