-- ===== src/Service/Keeps.antt =====
-- One rule for each function of include/cercall/service.h that other functions are made of: what its
-- parts keep, it keeps.
pub mod Calls
pub mod Operations
