-- ===== src/Index.antt =====
-- db/index: the in-memory indexes, the persistence of their definitions, and the manager that
-- holds both together.
pub mod Primary
pub mod Secondary
pub mod Persistor
pub mod Manager
