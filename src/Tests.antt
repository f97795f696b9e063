-- ===== src/Tests.antt =====
-- The theorems at concrete inputs, and runs of the definitions.
mod Lwp
mod Rtc
mod Device
mod Handler
mod Lbus
mod Net
mod Container
mod Logger
mod Ipchanger
mod Schedule
mod Bus
mod Client
mod Load
mod Saving
mod Rows
mod Ldb
mod Loading
mod Settings
mod Put
mod Discovery
mod Listing
