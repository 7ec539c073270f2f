-- ===== src/Http.antt =====
-- The package internal/delivery/http/v2: what the handlers decide before and after they call the
-- services.
pub mod Policies
pub mod Query
pub mod Listing
pub mod AccessRequests
mod Sample
mod Tests
