-- ===== src/Pagination.antt =====
-- src/core/utils/pagination.py: cursors that point behind the last row of a page.
pub mod Keyset
pub mod Cursors
pub mod RoundTrips
pub mod Pages
pub mod Sample
mod Tests
