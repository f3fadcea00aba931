-- ===== src/Worker.antt =====
-- The processing worker: apps/worker/app/tasks.
pub mod Chunks
pub mod Common
pub mod Stl
pub mod Gltf
pub mod Scan
pub mod Mesh
pub mod Webhook
pub mod Tests
