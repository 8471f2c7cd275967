-- ===== src/Activation.antt =====
-- src/indexing/static_publisher.rs: a built release is verified, installed and activated.
pub mod Verify
pub mod Install
pub mod Pointer
pub mod Upload
pub mod Run
pub mod Sample
pub mod Bucket
mod Tests
mod RunTests
use ltsearch.Common.{String}
use ltsearch.Errors.{PublishError}

pub data StaticActivateError : Type 0 where
  verify : String → StaticActivateError
  lost_cas : String → StaticActivateError
  storage : PublishError → StaticActivateError
  io : String → StaticActivateError
