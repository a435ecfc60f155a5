-- ===== src/Proxy.antt =====
-- The enforcement proxy, backend/internal/proxy: Ingress and Mirrored validate a request, Adapter
-- translates it, Upstream is what an allowed call carries, Handler decides.
pub mod Ingress
pub mod Base64
pub mod Mirrored
pub mod Adapter
pub mod World
pub mod Upstream
pub mod Handler
pub mod Recheck
mod Tests
