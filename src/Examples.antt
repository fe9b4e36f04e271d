-- ===== src/Examples.antt =====
-- Concrete runs of the theorems, for every part of the trading core.
mod Samples
mod Books
mod Trails
mod Queue
mod Runs
mod Incident
mod Governed
mod Services
mod Reviews
