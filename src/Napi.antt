-- ===== src/Napi.antt =====
-- The Node-API backend, dynabridge/backends/napi.h.
--
-- Node-API is a parameter: the statuses that its functions return are arguments, and its functions
-- do what the documentation says where they return `napi_ok`.
pub mod Construction
pub mod Callback
pub mod Reference
pub mod Define
pub mod Context
pub mod Unwrap
pub mod Number
