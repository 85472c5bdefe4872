-- ===== src/Middleware.antt =====
-- lib/middleware: the stack that runs requests and responses through middlewares, and the
-- middlewares that hide tombstones from nodes that do not know them.
pub mod Stack
pub mod Tombstone
