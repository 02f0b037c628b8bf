-- ===== src/Proxy.antt =====
-- internal/proxy: routing, the tap on the response body, and the handler.
pub mod Http
pub mod Router
pub mod Tap
pub mod Handler
pub mod ReverseProxy
pub mod Serve
pub mod ServeMux
