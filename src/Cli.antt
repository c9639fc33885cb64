-- ===== src/Cli.antt =====
-- The command line of crates/krcm-cli/src/main.rs.
pub mod Size
pub mod Files
pub mod Options
pub mod Run
pub mod Main
