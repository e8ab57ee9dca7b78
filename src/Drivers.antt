-- ===== src/Drivers.antt =====
-- drivers/: the keyboard and the network card.
pub mod Keys
pub mod Keymap
pub mod Inbuf
pub mod Ports
pub mod Keyboard
pub mod Nic
mod Tests
