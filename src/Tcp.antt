-- ===== src/Tcp.antt =====
-- Package tcpclient: one connection, plain or with TLS, and the health check that makes one.
pub mod Dial
pub mod Check
pub mod Config
