-- ===== src/Tests.antt =====
-- Tests and examples.
mod Fixtures
mod Programs
mod Orders
mod Accounts
mod Failures
mod Files
mod Certs
mod Protocol
mod Threads
mod Liveness
mod Site
mod Signed
mod Example
