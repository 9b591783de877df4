-- ===== src/Tests.antt =====
-- The theorems at concrete inputs, and runs of the definitions.
pub mod Samples
pub mod Facts
pub mod TwoSegments
mod Stores
mod Indexes
mod Segments
mod Logs
mod Services
mod Clusters
mod Agents
pub mod Histories
mod Connections
mod Nodes
pub mod Pairs
mod Reopenings
mod Requests
