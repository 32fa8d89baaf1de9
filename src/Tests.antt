-- ===== src/Tests.antt =====
-- The theorems at concrete inputs: a device of two channels with one chip each.
mod Device
mod Blocks
mod Ftl
mod Queues
mod Requests
mod Memory
