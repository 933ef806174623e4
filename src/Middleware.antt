-- ===== src/Middleware.antt =====
-- internal/middleware/middleware.go
pub mod RateLimiter
pub mod ClientIp
pub mod LogPath
