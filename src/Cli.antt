-- ===== src/Cli.antt =====
-- The command lines, cmd/hmac-secret and cmd/secrets, and the terminal's part of the alias API, pkg/device/cli
-- and pkg/pin.
pub mod Machine
pub mod Terminal
pub mod HmacSecret
pub mod Secrets
