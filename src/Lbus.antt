-- ===== src/Lbus.antt =====
-- The command bus of the gateway, liegw/src/lielas/lbus.c: the chain of pending commands,
-- their creation and loading, and the handlers of all commands, with the settings table of ldb.c.
pub mod Queue
pub mod Settings
pub mod Net
pub mod Change
pub mod Handler
pub mod Load
