-- ===== src/Profiles.antt =====
-- internal/profiles/errors.go and uri.go: the parts of a profile's URI.
pub mod Error
pub mod Percent
pub mod Ports
pub mod Authority
pub mod Query
