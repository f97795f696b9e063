-- ===== src/Lib.antt =====
-- Verification of the lielas gateway: the C programs liegw, which collects measured values from
-- devices over CoAP, and ipchanger, which changes the network settings of the gateway.
--
-- The parts and their files:
-- - Lwp: liegw/src/lielas/lwp.c. Lwp/Wkc has the description of a device's resources, Lwp/Parse the
--   parser `lwp_parse_wkc` of the description that a device publishes, Lwp/Attr the function
--   `lwp_get_attr_value` that finds a value in an answer, Lwp/Format the packed date and the text
--   of a hardware address. The device handler and the device container call them.
-- - Device: the arrays of channels and modules, `LaddChannel` and `LremoveChannel` of
--   liegw/src/lielas/modul.c, whose code is repeated for modules in device.c (Device/Slots), the
--   creation and deletion of modules and devices (Device/Deletion), and
--   liegw/src/lielas/devicecontainer.c: its list of devices (Device/Container), the cursor of
--   `LDCgetFirstDevice` and `LDCgetNextDevice` (Device/Container/Cursor), `loadModuls` and
--   `loadChannels` (Device/Container/Loading), and `LDCloadDevices` (Loading/Devices, with its proof
--   in InOrder). Device/Container/Links has the containers with the pointers `ldc` and `ndc` that
--   `LDCadd` and `LDCremove` read and write. Device/Container/Saving has `getNewId`,
--   `LDCsaveNewDevice`, `LDCsaveWKC` and `loadDeviceById`, and Saving/Updated `LDCsaveUpdatedDevice`; their proofs stand
--   in Rows, New, NewModuls, NewDevice, Ids, Reload, ReloadModuls and Reloaded beside them.
-- - Discovery: `LDCcheckForNewDevices` of liegw/src/lielas/devicecontainer.c. Discovery/Routes reads the
--   file of routes, Discovery/Inquiry asks a device at an unknown address, and Discovery/Setup adds,
--   saves and sets it up; Kept, Known and Added have the proofs.
-- - Sql: the tests for tables, columns and cells of liegw/src/sql/sql.c, which send a statement to the
--   server. Ldb: `lielas_createTables` and `lielas_deleteTable` of liegw/src/lielas/ldb.c, which
--   call them.
-- - Handler: liegw/src/devicehandler.c with the CoAP client liegw/src/coap/mycoap.c.
--   Handler/Runmode has the registration mode, Handler/Schedule the choice of a device in
--   `HandleDevices`, Handler/Scan the scan of that device, whose packets Handler/Records reads from
--   an answer, Handler/Cycle `setCycleMode` and Handler/Logger `setLoggerMint`. They send through
--   `coap_send_cmd` (Handler/Coap), which repeats `handle_send_cmd` (Handler/Exchange), which passes
--   each datagram to `message_handler` (Handler/Blocks).
-- - Rtc: liegw/src/rtc. Rtc/I2c is a10i2c.c, Rtc/Chip is rtc4162.c, which calls it, and Rtc/Clock is
--   rtc.c, which calls rtc4162.c.
-- - Lbus: liegw/src/lielas/lbus.c. Lbus/Queue has the chain of pending commands and its cursor,
--   Lbus/Load the creation of a command and `lbus_load`, Lbus/Handler `lbus_handler` with the
--   commands to delete a device and to log in, Lbus/Change `handleChgCmd`, Lbus/Settings the settings
--   table of liegw/src/lielas/ldb.c, and Lbus/Net `changeNetType`, which uses the table and the chain
--   and runs ipchanger.
-- - Coapserver: the put of a command in liegw/src/coap/coapserver.c, `hnd_put_lbus`, which adds to
--   the chain of Lbus/Queue.
-- - Settings: the reading of the settings file, `set_load` of liegw/src/settings.c.
-- - Ipchanger: ipchanger/src/main.c. Ipchanger/Settings reads the interfaces file,
--   Ipchanger/Commands has the commands and `main`.
-- Base has the shared types and lemmas, Tm is `struct tm`, Json has the tokens of jsmn, and Tests
-- has the examples.
--
-- How the code is modelled: a struct is a record and a state is passed on; numbers are natural
-- numbers or, where a member may be negative, signed ones, and a byte keeps its wrap-around. A
-- string is the list of its bytes before the zero, a buffer the list of its cells. `Run` tells a
-- result from an access outside an object (`fault`) and from a loop that has used up its fuel
-- (`out_of_fuel`). A Boolean result is true where the C function returns -1. What comes from the
-- network is a list of events, in their order.
--
-- Fuel: `lwp_parse_wkc` has fuel for each loop over a title, since that loop does not end on every
-- text; its outer loop has a round for each byte of the text and one more, which is enough. The
-- loop over the records has fuel above the count of the records. `walk_to_last` has fuel for the
-- length of the chain, and the loops over the commands have a round for each container. The loops
-- over the containers of the devices in memory have fuel above the count of the devices. All other
-- loops are structural.
--
-- Parameters: the tools i2cget and i2cset, `date`, NTP, the parts of a message and its sending by
-- libcoap, the tokens of jsmn, the file of routes, `mktime`, `strptime`, `atoi`, `strtol`, `strtod`,
-- `toupper` and the printing of numbers, the calendar, `malloc` for the bus and the devices, the SQL statements on the tables of settings, of
-- commands, of devices, their modules and channels, and of data, the server behind `PQexec`, `system`,
-- `cp`, `ifup` and `ifdown`.
--
-- Not modelled: the connection to the database, the other resources of the CoAP server, the device
-- events, which nothing calls, logging, threads other than the count of a held mutex, and the copies
-- of jsmn and libcoap.
pub mod Base
pub mod Tm
pub mod Json
pub mod Sql
pub mod Ldb
pub mod Settings
pub mod Coapserver
pub mod Rtc
pub mod Lwp
pub mod Device
pub mod Discovery
pub mod Handler
pub mod Lbus
pub mod Ipchanger
pub mod Tests
