-- ===== src/Proxy.antt =====
-- internal/proxy: the TCP side of a backend, its connections and the forwarding modes.
pub mod Conn
pub mod Forward
pub mod Backend
pub mod Manager
pub mod Udp
