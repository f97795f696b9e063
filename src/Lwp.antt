-- ===== src/Lwp.antt =====
-- The lielas protocol on top of CoAP, liegw/src/lielas/lwp.c and lwp.h: the resource description a
-- device publishes, attribute values, packed dates and hardware addresses.
pub mod Wkc
pub mod Parse
pub mod Attr
pub mod Format
