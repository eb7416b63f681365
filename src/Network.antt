-- ===== src/Network.antt =====
-- network/: the leases of cocoon-net.
pub mod Lease
pub mod Release
