-- ===== src/HostPath.antt =====
-- The gRPC methods of the driver (pkg/hostpath).
pub mod Env
pub mod Core
pub mod Populate
pub mod Requests
pub mod Capabilities
pub mod Controller
pub mod Attach
pub mod Snapshots
pub mod Listing
pub mod Health
pub mod Volumes
pub mod NodeInfo
pub mod Identity
pub mod Flags
pub mod Start
pub mod Server
pub mod Service
pub mod Publish
pub mod Stage
pub mod Leads
pub mod Lifecycle
pub mod Ends
pub mod Groups
