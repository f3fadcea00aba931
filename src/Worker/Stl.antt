-- ===== src/Worker/Stl.antt =====
-- tasks/stl.py.
pub mod Detect
pub mod Task
pub mod Process
