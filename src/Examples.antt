-- ===== src/Examples.antt =====
-- Concrete runs of the modelled code, and the theorems applied to them.
pub mod DeliveryRuns
pub mod AssemblyRuns
pub mod StorageRuns
pub mod SabrRuns
pub mod JobRuns
pub mod PipelineRuns
pub mod DownloadRuns
pub mod DbRuns
pub mod WholeRuns
pub mod CleanupRuns
pub mod ProcessRuns
pub mod ApiRuns
pub mod AddressRuns
pub mod ServiceRuns
