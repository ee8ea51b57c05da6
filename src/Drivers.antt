-- ===== src/Drivers.antt =====
-- The parts of src/drivers that only compute.
pub mod Catalog
pub mod RedisScan
