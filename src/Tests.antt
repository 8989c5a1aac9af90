-- ===== src/Tests.antt =====
-- Runs of the definitions at concrete inputs, and the theorems at inputs that meet their
-- hypotheses.
mod Messages
mod Streams
mod Dispatching
mod Threads
mod Sockets
mod Actions
mod Connections
mod Systems
mod Applications
mod Examples
