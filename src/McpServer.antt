-- ===== src/McpServer.antt =====
-- mcpserver: the MCP server that an agent without hooks starts, and that reports what it sees. Parsing,
-- printing, the clock and the post to aiguard are parameters.
pub mod Protocol
pub mod Serve
pub mod Reporter
pub mod Posted
pub mod Answers
pub mod Served
pub mod Quiet
