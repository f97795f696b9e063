-- ===== src/Handler.antt =====
-- The device handler of the gateway, liegw/src/devicehandler.c: the run mode, the choice
-- of a device, its scan, and the exchange with it over CoAP, of liegw/src/coap/mycoap.c.
pub mod Runmode
pub mod Coap
pub mod Cycle
pub mod Logger
pub mod Records
pub mod Schedule
pub mod Scan
pub mod Blocks
pub mod Exchange
