-- ===== src/Listings.antt =====
-- src/domains/listings/repository.py: the statements on listings that moderation uses
pub mod Views
pub mod Visits
pub mod Stats
mod Tests
pub mod Ranking
pub mod Results
pub mod Selection
pub mod Search
pub mod Browse
pub mod Owner
pub mod Drafts
use kupio_backend.Base.{ℕ, Bool, some, Option, ◌==◌}
use kupio_backend.Models.Listings.{Listing}
use kupio_backend.Models.Listings
use kupio_backend.Core.Errors.{listing_not_found}
use kupio_backend.Core.Action.{Action, ◌>>=◌, or_raise}
use kupio_backend.Core.Repository
use kupio_backend.Core.Repository.{Model}

abbrev pub listings : Model Listing
listings = record {
  rows = λ db. db.listings;
  with_rows = λ ls db. record db { listings = ls };
  is_deleted = Listings.is_deleted;
  delete_at = λ now l. record l { deleted_at = some now };
  conflicts = λ a b. a.id == b.id;
}

unfoldable pub get_by_id : ℕ → Action (Option Listing)
get_by_id listing_id = Repository.get listings (λ l. l.id == listing_id)

-- `ListingsService.get_listing`
unfoldable pub get_listing : ℕ → Action Listing
unfolding get_by_id
get_listing listing_id = do listing ← get_by_id listing_id; or_raise listing listing_not_found

unfoldable pub soft_delete_by_id : ℕ → ℕ → Action Bool
unfolding Repository.soft_delete
soft_delete_by_id now listing_id = Repository.soft_delete listings now (λ l. l.id == listing_id)

unfoldable pub soft_delete_by_user_id : ℕ → ℕ → Action ℕ
unfolding Repository.soft_delete_count
soft_delete_by_user_id now user_id =
    Repository.soft_delete_count listings now (λ l. l.user_id == user_id)
