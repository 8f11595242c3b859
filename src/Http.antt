-- ===== src/Http.antt =====
-- What stands around the handlers of HTTP requests: src/common and src/auth/guards.
pub mod RateLimit
pub mod RateWindow
pub mod ErrorFilter
pub mod CacheInterceptor
pub mod Timezone
pub mod Health
pub mod TokenGuard
mod Tests
