-- ===== src/Webhook.antt =====
-- routes-webhook.js and validator-signature-github.js: what is done with a request of GitHub.
pub mod Button
pub mod Chain
pub mod Events
pub mod Installations
pub mod Route
pub mod Cases
pub mod Replied
pub mod Answered
pub mod Signature
pub mod Passed
pub mod Uninstall
pub mod Closed
