-- ===== src/Mcp.antt =====
-- The MCP side of the package: from the admission of a tool call to its dispatch, and what carries it.
pub mod Json
pub mod Admission
pub mod Tool
pub mod Snapshot
pub mod Prepare
pub mod Lifecycle
pub mod SafeJson
pub mod Retained
pub mod Diagnostics
pub mod Channel
pub mod ServerTools
pub mod Server
