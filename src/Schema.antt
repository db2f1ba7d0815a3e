-- ===== src/Schema.antt =====
-- apps/frontend/src/schemas: the types that the zod schemas infer, and the checks that they make.
pub mod Fleet
pub mod Planning
pub mod Layout
pub mod Event
pub mod Content
pub mod Request
pub mod Optimization
pub mod Factory
