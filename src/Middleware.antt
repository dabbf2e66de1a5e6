-- ===== src/Middleware.antt =====
-- Package middleware: authentication, recovery, header checks, the rate limiter and the logger.
pub mod Auth
pub mod Recovery
pub mod Headers
pub mod RateLimit
pub mod Logger
pub mod Keeping
mod Tests
