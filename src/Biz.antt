-- ===== src/Biz.antt =====
-- Package biz: the money and value-context facts that every other package carries.
pub mod Money
pub mod Pii
pub mod Context
pub mod Baggage
pub mod Validate
