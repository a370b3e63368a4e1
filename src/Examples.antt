-- ===== src/Examples.antt =====
-- The theorems at concrete inputs, and small tests of the definitions.
mod Audits
mod Policies
mod Paths
mod Contexts
mod Grants
mod Sessions
mod Deciding
mod Executing
mod Requests
mod Handling
mod Collectors
