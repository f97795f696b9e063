-- ===== src/Rtc.antt =====
-- The real-time clock of the gateway, liegw/src/rtc: the I2C access (a10i2c.c), the driver of the
-- clock chip (rtc4162.c) and the start-up and setting of the system time (rtc.c).
pub mod I2c
pub mod Chip
pub mod Clock
pub mod Bcd
pub mod Transfer
pub mod Trip
pub mod State
