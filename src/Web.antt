-- ===== src/Web.antt =====
-- The middleware of web/gin/middleware and the clients of web/std/client and web/fasthttp.
pub mod Fail2ban
pub mod RateLimiter
pub mod Client
pub mod BasicAuth
pub mod Ntlm
pub mod FastHttp
mod Tests
