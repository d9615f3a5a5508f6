-- ===== src/Crypto.antt =====
-- src/crypto: the identifiers of crypto systems, the collections of keys, the streams and the tunnels.
pub mod Systems
pub mod Xor
pub mod Fingerprint
pub mod MultiSign
pub mod MultiCryptoStrings
pub mod KeyPairs
pub mod Kex
pub mod Stream
pub mod Tunnel
mod Tests
