-- ===== src/Calls.antt =====
-- The calls of the RPC methods: src/grpc_helper/meta.py, src/grpc_helper/methods.py and
-- src/grpc_helper/client.py.
pub mod Metadata
pub mod Trace
pub mod Chain
pub mod Method
pub mod Client
