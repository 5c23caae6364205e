-- ===== src/Http.antt =====
-- muduo/net/http: the server of HTTP/1.0 and 1.1 requests without a body.
pub mod Request
pub mod Parser
pub mod Response
pub mod Server
mod Tests
