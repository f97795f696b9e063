-- ===== src/Device.antt =====
-- The device tree of the gateway, of liegw/src/lielas: devices with modules (device.c), modules
-- with channels (modul.c, channel.c), and the container of the devices (devicecontainer.c).
pub mod Slots
pub mod Deletion
pub mod Container
