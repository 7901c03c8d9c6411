-- ===== src/Event.antt =====
-- event/*.go: load reports and heartbeats, sent from a queue to handlers, such as one that requests
-- a URL.
pub mod Queue
pub mod Reporter
pub mod UrlHandler
