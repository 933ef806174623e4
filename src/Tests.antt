-- ===== src/Tests.antt =====
-- Concrete runs of the models.
mod Fixtures
mod Activations
mod Traffic
mod Policies
mod Rules
mod Keys
mod Jobs
mod Sources
mod Reports
mod Feeds
mod Profiles
mod Leases
mod Queries
