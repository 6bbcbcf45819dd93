-- ===== src/Tests.antt =====
-- Runs of the model, and the theorems at concrete inputs.
mod Hashing
mod Maps
mod Strings
mod Frames
mod Patterns
mod Sorting
mod Streaming
mod Arrays
mod RuntimeTexts
mod RuntimeMaps
mod Digests
mod Exceptions
mod Matrices
