-- ===== src/Tests.antt =====
-- Concrete runs of the models, and the theorems at concrete inputs.
mod Instances
mod Messages
mod Input
mod Account
mod Pool
mod Redis
mod Sends
mod Statements
mod Dispatching
mod Connections
mod ConfigFile
mod Requests
mod Waiting
