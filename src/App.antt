-- ===== src/App.antt =====
-- app/app_config.go and app/app.go: the configuration of the app, and how it is put together.
pub mod Config
pub mod Accounts
pub mod Blocked
pub mod Startup
pub mod Routes
mod Tests
