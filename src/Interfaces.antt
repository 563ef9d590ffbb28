-- ===== src/Interfaces.antt =====
-- interfaces/procfs, interfaces/sysfs and interfaces/debugfs: the counter service.
pub mod Counter
