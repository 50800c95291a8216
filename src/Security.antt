-- ===== src/Security.antt =====
-- security.py: the audit log, the rate limiter, the input validators and the test-mode gate.
pub mod RateLimit
pub mod Audit
pub mod Safety
pub mod Validators
mod Tests
