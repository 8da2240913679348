-- ===== src/Model.antt =====
-- The data that the program's files exchange: queue items and documents, the messages on the bus
-- (postal) and the requests to GitHub and OneSignal.
pub mod Queue
pub mod Event
pub mod Webhook
pub mod User
pub mod Installation
pub mod Outside
pub mod PullRequest
pub mod Message
pub mod Notification
pub mod Http
