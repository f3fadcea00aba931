-- ===== src/Uploads.antt =====
-- Uploads of models: services/storage.py, services/models.py and routers/models.py of apps/api/app.
pub mod Filenames
pub mod Files
pub mod Service
pub mod Routes
pub mod Tests
