-- ===== src/Promotions.antt =====
-- src/domains/promotions/repository.py and service.py, and the owner check of
-- src/domains/listings/dependencies.py that the purchase route goes through. Time is in seconds.
pub mod Expiry
pub mod Lists
pub mod Running
mod Tests
use kupio_backend.Base.{
  ℕ, ◌+◌, ◌*◌, Bool, true, false, ◌&&◌, not, Option, none, some, List, ◌==◌, ltb, leb, is_none,
  is_some, if◌then◌else◌,
}
use kupio_backend.Base.Int.{ℤ, neg}
use kupio_backend.Base.Lists.{some_row}
use kupio_backend.Models.{Database}
use kupio_backend.Models.Users.{User}
use kupio_backend.Models.Listings.{Listing}
use kupio_backend.Models.Listings
use kupio_backend.Models.Payments.{debit}
use kupio_backend.Models.Promotions.{
  PromotionPacket, ListingPromotion, PromotionType, PromotionStatus, active, expired, type_eq,
}
use kupio_backend.Models.Promotions
use kupio_backend.Core.Errors.{
  promotion_packet_not_found, promotion_packet_inactive, listing_not_promotable,
  duplicate_active_promotion, listing_promotion_not_found, insufficient_balance,
}
use kupio_backend.Core.Action.{Action, ok, commit, ◌>>=◌, ◌>>◌, raise_if, or_raise, in_uow}
use kupio_backend.Core.Repository
use kupio_backend.Core.Repository.{Model}
use kupio_backend.Users
use kupio_backend.Payments

abbrev pub promotion_packets : Model PromotionPacket
promotion_packets = record {
  rows = λ db. db.promotion_packets;
  with_rows = λ ps db. record db { promotion_packets = ps };
  is_deleted = λ _. false;
  delete_at = λ _ p. p;
  conflicts = λ a b. a.id == b.id;
}

abbrev pub listing_promotions : Model ListingPromotion
listing_promotions = record {
  rows = λ db. db.listing_promotions;
  with_rows = λ ps db. record db { listing_promotions = ps };
  is_deleted = λ _. false;
  delete_at = λ _ p. p;
  conflicts = λ a b. a.id == b.id;
}

unfoldable pub get_packet : ℕ → Action PromotionPacket
unfolding Repository.get
get_packet packet_id = do
  packet ← Repository.get promotion_packets (λ p. p.id == packet_id)
  or_raise packet promotion_packet_not_found

unfoldable pub list_packets : Action (List PromotionPacket)
list_packets = Repository.get_many promotion_packets (λ p. p.is_active)

-- `id` is the serial number of the row; a new packet is active by the column's default.
unfoldable pub create_packet : ℕ → ℕ → Option ℕ → PromotionType → ℕ → ℤ → Action PromotionPacket
create_packet id name description type duration_days price = in_uow (
    Repository.add promotion_packets (record {
      id = id;
      name = name;
      description = description;
      type = type;
      duration_days = duration_days;
      price = price;
      is_active = true;
    }))

-- `PromotionPacketUpdateRequest`: the fields that the client has set.
pub record PacketUpdate : Type 0 where
  pub name : Option ℕ
  pub description : Option (Option ℕ)
  pub price : Option ℤ
  pub is_active : Option Bool

abbrev pub or_old : {A : Type 0} → Option A → A → A
or_old none old = old
or_old (some new) old = new

abbrev pub is_unset : PacketUpdate → Bool
is_unset d = is_none d.name && is_none d.description && is_none d.price && is_none d.is_active

abbrev pub set_fields : PacketUpdate → PromotionPacket → PromotionPacket
set_fields d p = record p {
  name = or_old d.name p.name;
  description = or_old d.description p.description;
  price = or_old d.price p.price;
  is_active = or_old d.is_active p.is_active;
}

-- With nothing set, `_update` only reads the row.
unfoldable pub update_packet : ℕ → PacketUpdate → Action (Option PromotionPacket)
update_packet packet_id packet_data = in_uow (λ s.
    if is_unset packet_data
    then Repository.get promotion_packets (λ p. p.id == packet_id) s
    else Repository.update promotion_packets (λ p. p.id == packet_id) (set_fields packet_data) s)

-- `ListingPromotion.packet.has(PromotionPacket.type == type)`
abbrev pub has_type : Database → PromotionType → ListingPromotion → Bool
has_type db type p = some_row (λ k. k.id == p.packet_id && type_eq k.type type) db.promotion_packets

-- ACTIVE and not run out
abbrev pub is_live : ℕ → ListingPromotion → Bool
is_live now p = Promotions.is_active p.status && ltb now p.expires_at

unfoldable pub get_active_by_listing_and_type :
    ℕ → ℕ → PromotionType → Action (Option ListingPromotion)
unfolding Repository.get
get_active_by_listing_and_type now listing_id type s =
    Repository.get listing_promotions
      (λ p. p.listing_id == listing_id && is_live now p && has_type s.working type p) s

unfoldable pub get_active_for_listing : ℕ → ℕ → Action (List ListingPromotion)
get_active_for_listing now listing_id =
    Repository.get_many listing_promotions (λ p. p.listing_id == listing_id && is_live now p)

-- `_validate_purchase`
unfoldable pub validate_purchase : ℕ → Listing → PromotionPacket → Action (Unit {0})
unfolding get_active_by_listing_and_type
validate_purchase now listing packet = do
  raise_if (not (Listings.is_active listing.status)) listing_not_promotable
  raise_if (not packet.is_active) promotion_packet_inactive
  existing ← get_active_by_listing_and_type now listing.id packet.type
  raise_if (is_some existing) duplicate_active_promotion

-- `_create_listing_promotion`, with `ListingPromotionsRepository.create`
unfoldable pub create_listing_promotion :
    ℕ → ℕ → Listing → PromotionPacket → ℕ → Action ListingPromotion
create_listing_promotion id now listing packet transaction_id =
    Repository.add listing_promotions (record {
      id = id;
      listing_id = listing.id;
      packet_id = packet.id;
      transaction_id = transaction_id;
      starts_at = now;
      expires_at = now + packet.duration_days * 86400;
      status = active;
      created_at = now;
    })

-- The body of the transaction of a purchase
unfoldable pub pay_and_promote :
    ℕ → ℕ → ℕ → User → Listing → PromotionPacket → Action ListingPromotion
unfolding Users.deduct_balance Payments.create_transaction create_listing_promotion
pay_and_promote transaction_id id now current_user listing packet = do
  success ← Users.deduct_balance current_user.id packet.price
  raise_if (not success) insufficient_balance
  transaction ←
      Payments.create_transaction transaction_id now current_user.id (neg packet.price) debit
  create_listing_promotion id now listing packet transaction.id

-- `transaction_id` and `id` are the `uuid4()` of the two new rows.
unfoldable pub purchase : ℕ → ℕ → ℕ → User → Listing → ℕ → Action ListingPromotion
purchase transaction_id id now current_user listing packet_id = do
  packet ← get_packet packet_id
  validate_purchase now listing packet
  in_uow (pay_and_promote transaction_id id now current_user listing packet)

unfoldable pub get_promotion : ℕ → Action ListingPromotion
unfolding Repository.get
get_promotion promotion_id = do
  promotion ← Repository.get listing_promotions (λ p. p.id == promotion_id)
  or_raise promotion listing_promotion_not_found

-- The statement of the worker's cron job
unfoldable pub bulk_expire : ℕ → Action ℕ
unfolding Repository.update_count
bulk_expire now =
    Repository.update_count listing_promotions
      (λ p. Promotions.is_active p.status && leb p.expires_at now)
      (λ p. record p { status = expired })

-- The worker's cron job (src/worker.py), which commits by itself
unfoldable pub deactivate_expired_promotions : ℕ → Action ℕ
unfolding bulk_expire
deactivate_expired_promotions now = do count ← bulk_expire now; λ s. (ok count, commit s)
