-- ===== src/Devices.antt =====
-- devices: the block device layer.
pub mod Block
pub mod Intq
