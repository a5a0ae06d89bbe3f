-- ===== src/Proxy/Laws.antt =====
-- proxy/decision.go and proxy/http_handler.go: the theorems.
pub mod Permits
pub mod Effects
