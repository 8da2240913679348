-- ===== src/Sample.antt =====
-- A database in memory, and the theorems applied to concrete requests.
pub mod Driver
pub mod Server
pub mod Events
pub mod Data
mod Queue
mod PullRequests
mod Checks
mod Service
mod Notifications
mod Routes
mod Access
mod Tool
mod Mongo
mod Scripts
mod Revoked
mod Webhooks
