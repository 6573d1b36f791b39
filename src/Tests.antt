-- ===== src/Tests.antt =====
-- Inputs on which the theorems' hypotheses hold, and the theorems applied to them.
mod Data
mod Formats
mod Tables
mod Engines
mod Connections
mod Codings
mod Openings
mod Reopenings
mod Servers
mod Files
mod Threads
mod Programs
mod Examples
