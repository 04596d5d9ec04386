-- ===== src/Drm.antt =====
-- The DRM/KMS examples of code/examples/drm.
pub mod Env
pub mod Dumb
pub mod Fill
pub mod SimpleKms
pub mod GemShmem
pub mod DumbFlow
pub mod PrimeFlow
pub mod Samples
mod Tests
mod Working
pub mod Connector
pub mod Atomic
pub mod PageFlip
pub mod Modeset
