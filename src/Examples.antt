-- ===== src/Examples.antt =====
-- The theorems at concrete inputs, and runs of the definitions.
mod Values
mod Slots
mod Segments
mod Maps
mod Splits
mod Tables
mod Growth
mod Sessions
mod Stores
mod Entries
mod Commands
mod Options
mod Buffers
mod Keys
