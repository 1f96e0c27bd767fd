-- ===== src/Symbol/Tests.antt =====
-- Concrete symbols, types and handles.
mod Data
mod Queries
