-- ===== src/Tests.antt =====
-- Concrete runs of the modelled code.
mod Fixtures
mod Crypto
mod Access
mod Batches
mod Bundles
mod Evidence
mod Policies
mod Languages
mod Requests
mod Reviews
mod Queue
mod Local
mod Routes
mod Segments
