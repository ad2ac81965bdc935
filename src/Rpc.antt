-- ===== src/Rpc.antt =====
-- mountd/rpc.c and include/rpc.h.
pub mod Ndr
pub mod Header
pub mod Syntax
pub mod Bind
pub mod Pipe
mod Tests
