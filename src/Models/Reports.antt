-- ===== src/Models/Reports.antt =====
-- src/domains/reports/models.py and enums.py
use kupio_backend.Base.{ℕ, Option, Bool, false, true}

pub data ReportStatus : Type 0 where
  pending declined listing_removed user_banned : ReportStatus

abbrev pub is_pending : ReportStatus → Bool
is_pending pending = true
is_pending _ = false

pub data ReportSeenFilter : Type 0 where
  all seen unseen : ReportSeenFilter

pub data ReportDecisionAction : Type 0 where
  decline remove_listing ban_user : ReportDecisionAction

pub record ReportReason : Type 0 where
  pub id : ℕ
  pub slug : ℕ
  pub title : ℕ
  pub description : Option ℕ
  pub display_order : ℕ
  pub is_active : Bool

pub record ListingReport : Type 0 where
  pub id : ℕ
  pub listing_id : ℕ
  pub reporter_id : ℕ
  pub reason_id : ℕ
  pub additional_info : Option ℕ
  pub status : ReportStatus
  pub seen_at : Option ℕ
  pub seen_by_moderator_id : Option ℕ
  pub moderated_at : Option ℕ
  pub moderator_id : Option ℕ
  pub moderator_comment : Option ℕ
  pub created_at : ℕ
