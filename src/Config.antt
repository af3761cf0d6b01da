-- ===== src/Config.antt =====
-- src/grpc_helper/config: the configuration items and their manager.
pub mod Item
pub mod Static
pub mod Env
pub mod Startup
pub mod Requests
