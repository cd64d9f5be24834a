-- ===== src/Promotions/Expiry.antt =====
-- The worker's job on promotions that have run out (src/worker.py, bulk_expire).
use kupio_backend.Base.{ℕ, ◌≤◌, ◌≡◌, refl, ap, Bool, false, ◌&&◌, List, arith, ◌==◌, leb}
use kupio_backend.Base.Lists.{
  All, All-trivial, All-update_where, select_none, update_where, select-update_where,
}
use kupio_backend.Models.{Database}
use kupio_backend.Models.Promotions.{ListingPromotion, expired}
use kupio_backend.Models.Promotions
use kupio_backend.Core.Action.{ok, opened}
use kupio_backend.Core.Repository
use kupio_backend.Core.Repository.{fits}
use kupio_backend.Promotions.{
  bulk_expire, deactivate_expired_promotions, get_active_for_listing, is_live,
}

-- Still ACTIVE at a time, and run out by then
abbrev pub is_over : ℕ → ListingPromotion → Bool
is_over now p = Promotions.is_active p.status && leb p.expires_at now

module _ (now : ℕ) (db : Database) where
  abbrev pub swept : List ListingPromotion
  swept = update_where (is_over now) (λ p. record p { status = expired }) db.listing_promotions

  deactivate-state :
      (deactivate_expired_promotions now (opened db)).1
      ≡ opened (record db { listing_promotions = swept })
  unfolding deactivate_expired_promotions bulk_expire Repository.update_count
  deactivate-state = refl

  swept-free : All (λ p. is_over now p ≡ false) swept
  swept-free =
      All-update_where _ _ _ db.listing_promotions (λ p _. ground arith)
        (All-trivial db.listing_promotions)

  -- The job changes nothing in the active promotions that are shown with a listing: at its time or
  -- later, these are the same as if it had not run.
  pub get_active_for_listing-deactivate :
      (later listing_id : ℕ)
      → now ≤ later
      → (get_active_for_listing later listing_id
          (opened (deactivate_expired_promotions now (opened db)).1.committed)).0
        ≡ (get_active_for_listing later listing_id (opened db)).0
  unfolding get_active_for_listing Repository.get_many
  get_active_for_listing-deactivate later listing_id after = rw deactivate-state (
      ap ok (
        select-update_where (λ p. p.listing_id == listing_id && is_live later p) (is_over now)
          (λ p. record p { status = expired }) db.listing_promotions
          (λ p h. (ground arith, ground arith))))

  -- Once the job has run, no promotion that has run out is active, and a second run at the same
  -- time finds none.
  pub deactivate-deactivate :
      let s = (deactivate_expired_promotions now (opened db)).1 in
      All (λ p. is_over now p ≡ false) s.committed.listing_promotions
      × ((deactivate_expired_promotions now s).0 ≡ ok 0)
  unfolding deactivate_expired_promotions bulk_expire Repository.update_count
  deactivate-deactivate = (swept-free, rw (select_none (is_over now) swept swept-free) refl)
