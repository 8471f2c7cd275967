-- ===== src/Turbo.antt =====
-- src/index/: the identity of the codecs, and the files of the static index.
pub mod Codec
pub mod Fingerprint
pub mod Header
pub mod Record
pub mod Assets
pub mod ProdCodec
pub mod MmapIndex
pub mod Accessors
pub mod Loader
pub mod Release
mod Tests
