-- ===== src/Util.antt =====
-- util: the package of small helpers.
pub mod Atomic
pub mod Shuffle
pub mod Log
