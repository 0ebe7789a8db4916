-- ===== src/Tests.antt =====
-- Concrete inputs at which the theorems apply.
mod Bridge
mod Sockets
mod Pools
mod Tls
mod Tunnel
mod Http2
mod Config
