-- ===== src/Ipchanger.antt =====
-- The program that changes the network settings of the gateway, ipchanger/src/main.c: what it
-- writes to the interfaces file and to resolv.conf, its backup, and what it reads back.
pub mod Settings
pub mod Commands
