-- ===== src/Server.antt =====
-- src/grpc_helper/server.py: the RPC server.
pub mod Services
pub mod Servicer
pub mod Registry
pub mod Startup
pub mod Proxied
pub mod Lifecycle
pub mod Termination
pub mod Loggers
pub mod Construct
