-- ===== src/Tests.antt =====
-- Tests: sample formats, clients and entities, and the theorems of the other modules at them.
mod Samples
mod Inventories
mod Requests
mod Events
mod Batches
mod Sessions
mod Tables
mod Charts
mod Configuration
mod Products
mod Clouds
mod Sinks
mod Turns
mod Starts
