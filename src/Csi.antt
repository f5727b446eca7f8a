-- ===== src/Csi.antt =====
-- internal/csi: the storage driver for Kubernetes: VolumeId is volume_id.go, Volumes has the pure parts of
-- controller.go and Controller its calls, over the client of the appliance's API (client.go).
pub mod VolumeId
pub mod Volumes
pub mod Controller
pub mod Maintenance
