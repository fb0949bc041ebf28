-- ===== src/Testnets.antt =====
-- The commands of cmd/veranatestd/cmd that set up test networks.
pub mod Texts
pub mod InPlace
pub mod MultiNode
