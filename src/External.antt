-- ===== src/External.antt =====
-- src/plugins/external: the routes that the programme's other system calls.
pub mod Proposals
pub mod LegacyFix
