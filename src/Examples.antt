-- ===== src/Examples.antt =====
-- The theorems at concrete inputs: a file for each part of the program.
mod BodyDecoders
mod Scanning
mod Parsing
mod Pieces
mod RoundTrips
mod Scenarios
mod Meaning
