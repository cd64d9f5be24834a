-- ===== src/Models/Favourites.antt =====
-- src/domains/favourites/models.py
use kupio_backend.Base.{ℕ}

pub record ListingFavourite : Type 0 where
  pub user_id : ℕ
  pub listing_id : ℕ
  pub created_at : ℕ
