-- ===== src/Dclass.antt =====
-- src/dclass/dc: the types of the fields of distributed classes.
pub mod Number
pub mod Types
pub mod Class
