-- ===== src/Cli/Summary.antt =====
-- When `check_policy` of rust-old/src/main.rs fails.
