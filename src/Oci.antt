-- ===== src/Oci.antt =====
-- internal/oci/image.go: from an OCI image layout on disk to a root filesystem that is unpacked.
pub mod Image
pub mod Select
pub mod User
pub mod Environment
pub mod ArchivePath
pub mod Mode
pub mod Extract
pub mod Blob
pub mod Layer
pub mod Configuration
pub mod Prepare
pub mod Bundle
pub mod Sample
mod Tests
