-- ===== src/Projects.antt =====
-- Projects and their members: apps/api/app/core/authorization.py, services/projects.py and
-- routers/projects.py.
pub mod Authorization
pub mod Service
pub mod Checks
pub mod Invariant
pub mod Creation
pub mod Handlers
pub mod Race
pub mod Tests
