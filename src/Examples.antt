-- ===== src/Examples.antt =====
-- The theorems at concrete inputs, and tests of the definitions.
mod Kin
mod Sets
mod Numbers
mod Discarding
mod Tries
mod Running
mod Tagged
mod Grammars
mod Hashes
mod HashSets
mod Scanning
mod TagMatches
mod Operators
mod Related
mod Sorted
mod Trees
