-- ===== src/DockerVol.antt =====
-- internal/dockervol: the Docker volume driver. Spec is what a volume is, Driver the registry and
-- its requests, CertTimer the schedule of a volume's certificate.
pub mod Spec
pub mod Driver
pub mod Refresh
pub mod CertTimer
pub mod State
pub mod Reach
pub mod Render
mod Tests
mod DriverTests
mod RenderTests
