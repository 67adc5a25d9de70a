-- ===== src/Photo.antt =====
-- The images of mp2/photo.c.
pub mod Types
pub mod Lines
pub mod Octree
pub mod Read
