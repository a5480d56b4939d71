-- ===== src/Tests.antt =====
-- The theorems at concrete inputs, over instances of what is a parameter.
mod Toys
mod Stores
mod System
mod Wire
mod Pebble
mod Sqlite
mod Listing
mod Service
mod Devices
mod Authenticator
mod Webauthn
mod Windows
mod OnPebble
mod Cli
mod Secrets
