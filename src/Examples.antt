-- ===== src/Examples.antt =====
-- A concrete table engine, and each theorem applied at concrete inputs, with tests of the
-- definitions.
pub mod ListTable
pub mod Engine
pub mod Data
mod Files
mod Jobs
pub mod Auth
mod Access
mod Sockets
mod Worker
mod Queue
mod System
mod Routes
mod Flows
mod Journey
