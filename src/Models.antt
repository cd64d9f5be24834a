-- ===== src/Models.antt =====
-- The rows of the tables (src/domains/*/models.py, src/core/database/base_model.py) and the database that
-- holds them. Identifiers (UUIDs and serial numbers), timestamps and texts that the code only
-- compares are numbers. `updated_at` and what only a response shows are left out.
pub mod Users
pub mod Auth
pub mod Listings
pub mod Payments
pub mod Promotions
pub mod Reports
pub mod Categories
pub mod Favourites
pub mod Chat
pub mod Filters
use kupio_backend.Base.{List, []}
use Users.{User, NotificationToken, Moderator}
use Auth.{Session, OauthIdentity}
use Listings.{Listing, ListingView}
use Payments.{BalanceTransaction, PaymentSession}
use Promotions.{PromotionPacket, ListingPromotion}
use Reports.{ReportReason, ListingReport}
use Categories.{Category}
use Favourites.{ListingFavourite}
use Filters.{FilterDefinition}
use Chat.{Conversation, Message}

-- The tables that the repositories of src/core/database/repositories.py read and write.
pub record Database : Type 0 where
  pub users : List User
  pub moderators : List Moderator
  pub notification_tokens : List NotificationToken
  pub sessions : List Session
  pub oauth_identities : List OauthIdentity
  pub listings : List Listing
  pub balance_transactions : List BalanceTransaction
  pub payments_sessions : List PaymentSession
  pub promotion_packets : List PromotionPacket
  pub listing_promotions : List ListingPromotion
  pub report_reasons : List ReportReason
  pub reports : List ListingReport
  pub categories : List Category
  pub filter_definitions : List FilterDefinition
  pub listing_views : List ListingView
  pub listing_favourites : List ListingFavourite
  pub conversations : List Conversation
  pub messages : List Message

abbrev pub empty : Database
empty = record {
  users = [];
  moderators = [];
  notification_tokens = [];
  sessions = [];
  oauth_identities = [];
  listings = [];
  balance_transactions = [];
  payments_sessions = [];
  promotion_packets = [];
  listing_promotions = [];
  report_reasons = [];
  reports = [];
  categories = [];
  filter_definitions = [];
  listing_views = [];
  listing_favourites = [];
  conversations = [];
  messages = [];
}
