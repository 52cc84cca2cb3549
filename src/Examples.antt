-- ===== src/Examples.antt =====
-- The theorems at concrete inputs.
mod Limits
mod Resilience
mod Deliveries
mod Signatures
mod Requests
mod Origins
mod Ciphers
mod Engines
mod Buckets
mod Dashboards
mod Seeds
mod Sets
mod Scripts
mod Drills
mod Screens
mod Exits
mod Demonstrations
