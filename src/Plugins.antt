-- ===== src/Plugins.antt =====
-- backend/plugin: the plugins of the backend. `Config` is their validated configuration, `Host` what
-- the code uses of the file system and of libraries, `Registry` their state in Redis, `Remote` the
-- lists of plugins elsewhere, `Requirements` the installation of packages, `Install` the plugin folder.
pub mod Config
pub mod Host
pub mod Registry
pub mod Remote
pub mod Requirements
pub mod Install
pub mod Codec
pub mod Concrete
