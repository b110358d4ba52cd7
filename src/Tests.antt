-- ===== src/Tests.antt =====
-- Tests by evaluation, and each theorem at an input where its hypotheses hold.
mod Requests
mod Responses
mod Shards
mod Scans
mod Names
mod Tags
mod Descriptors
mod Queues
mod Listings
mod Arenas
mod Mtimes
mod Candidates
mod Flags
mod Stats
mod Logs
