-- ===== src/Console.antt =====
-- The web console: src/certadillo/web/static/console.js.
pub mod Rules
pub mod Onboard
pub mod Inventory
pub mod Folders
pub mod Session
pub mod Cells
pub mod Allowed
pub mod Overview
pub mod Discovery
pub mod Provisioning
pub mod Signing
pub mod Issuers
pub mod SshKeys
pub mod Audit
pub mod Reports
pub mod Drawn
pub mod Encode
pub mod Requests
pub mod Calls
pub mod Replies
pub mod Editor
mod Tests
