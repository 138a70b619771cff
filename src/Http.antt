-- ===== src/Http.antt =====
-- internal/provider/httpclient: the HTTP layer that the connectors of providers share.
pub mod Client
pub mod Json
pub mod Scim
