-- ===== src/Net.antt =====
-- kernel/net: the Internet checksum and the cache of ARP.
pub mod Checksum
pub mod Arp
