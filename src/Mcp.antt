-- ===== src/Mcp.antt =====
-- The MCP server of src/mcp.rs: the runs that it keeps, the operator's restarts, the pages of worker logs,
-- and the actions that the authorization gate guards. The protocol around the tools is left out.
pub mod Restarts
pub mod Runs
pub mod Paging
pub mod Arguments
pub mod Actions
mod Tests
