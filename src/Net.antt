-- ===== src/Net.antt =====
-- net/: the network code.
pub mod Bytes
pub mod Packet
pub mod Device
pub mod Resolve
pub mod Ip
pub mod Arp
pub mod SkBuffer
pub mod Icmp
pub mod Udp
pub mod Receive
mod Tests
