-- ===== src/Security.antt =====
-- Who may call the system, and what leaves it: flood_system/identity.py and security.py.
pub mod Identity
pub mod KeyRing
mod Tests
