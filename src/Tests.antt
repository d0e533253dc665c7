-- ===== src/Tests.antt =====
-- Tests of the parts, and their theorems at concrete inputs.
mod Objects
mod Times
mod Issuers
mod Exposers
mod Secrets
mod Events
mod Profiles
mod Servers
mod Commands
mod Accounts
mod Orders
mod Trips
mod Texts
mod Queues
mod Lifecycle
mod Processes
