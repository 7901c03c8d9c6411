-- ===== src/Tests.antt =====
-- Runs of the models at concrete inputs, and an instance of each theorem that has hypotheses.
mod Acl
mod Readers
mod Packets
mod Shuffles
mod Metrics
mod Updater
mod Interfaces
mod Streams
mod Logins
mod Settings
mod Events
mod Clients
mod Proxies
mod Logs
mod Mains
