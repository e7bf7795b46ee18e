-- ===== src/Export.antt =====
-- dynabridge/export_callable.h: the dispatch of an incoming call to the overloads of an export.
pub mod Plan
pub mod Dispatch
pub mod Binder
