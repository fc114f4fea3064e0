-- ===== src/Tests.antt =====
-- The theorems at concrete inputs that meet their hypotheses, and runs of the code.
mod Shared
mod Translation
mod Sidecar
mod Claims
mod Outcomes
mod Accesses
mod Handovers
mod Grants
mod Lives
mod Connecting
mod Requests
