-- ===== src/Rpc.antt =====
-- dynabridge/backends/rpc.h: the framed RPC backend.
pub mod Kind
pub mod Value
pub mod Endian
pub mod Writer
pub mod Reader
pub mod Codec
pub mod Frame
pub mod Response
pub mod Symbol
pub mod Convert
pub mod Router
pub mod Bind
