-- ===== src/Permissions/Laws.antt =====
-- lib/permissions.ts: what its operations promise the assignment panel.
pub mod Toggles
pub mod Above
pub mod Expanded
pub mod SelectAll
pub mod Splitting
