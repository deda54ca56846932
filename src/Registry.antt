-- ===== src/Registry.antt =====
-- app/registry.py: the tables of printers, formats, templates and overlays and the device settings.
-- JSON columns are kept as the values that they encode; timestamps are left out, since nothing reads
-- them. `Versioned` is a table with AUTOINCREMENT ids and a version in each row, and the methods that
-- the four entities share. `Config` is the whole registry, with the foreign keys of `printers`.
pub mod Versioned
pub mod Updates
pub mod Config
pub mod Keys
pub mod References
pub mod Yaml
pub mod Named
pub mod Upserted
pub mod Planned
