-- ===== src/Auth.antt =====
-- Sign-in of the administrator: app/auth_security.py, app/services/auth_service.py, the session
-- part of app/dependencies.py and app/routers/auth.py.
pub mod Limiter
pub mod Service
pub mod Session
pub mod Routes
pub mod Outcomes
pub mod Failures
pub mod Lockout
mod Tests
