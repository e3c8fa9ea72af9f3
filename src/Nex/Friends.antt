-- ===== src/Nex/Friends.antt =====
-- The classes of nex/types/friendsSecure.
pub mod Profile
pub mod Presence
pub mod Requests
pub mod Notices
pub mod Info
