-- ===== src/Events.antt =====
-- src/grpc_helper/events: the events service and its listeners.
pub mod Manager
pub mod Listener
