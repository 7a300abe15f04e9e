-- ===== src/Scenarios.antt =====
-- Concrete tables, lists, trees, sessions, connections, schedules, drags, requests and
-- forms, and what the theorems say of them.
pub mod Tables
pub mod Lists
pub mod Roles
pub mod Sessions
pub mod Connections
pub mod Schedules
pub mod Drags
pub mod Requests
pub mod Forms
