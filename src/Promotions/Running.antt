-- ===== src/Promotions/Running.antt =====
-- When a promotion runs, in words of its columns.
use kupio_backend.Base.{ℕ, ◌<◌, ◌≡◌, refl, true, arith}
use kupio_backend.Models.Promotions.{
  ListingPromotion, PromotionStatus, active, pending, expired, cancelled,
}
use kupio_backend.Models.Promotions
use kupio_backend.Promotions.{is_live}

abbrev pub IsRunning : ℕ → ListingPromotion → Type 0
IsRunning now p = (p.status ≡ active) × (now < p.expires_at)

active_status : (s : PromotionStatus) → Promotions.is_active s ≡ true → s ≡ active
active_status active h = refl
active_status pending h = cc
active_status expired h = cc
active_status cancelled h = cc

pub is_live-IsRunning : (now : ℕ) (p : ListingPromotion) → is_live now p ≡ true → IsRunning now p
is_live-IsRunning now p h = (active_status p.status (ground arith), ground arith)

pub IsRunning-is_live : (now : ℕ) (p : ListingPromotion) → IsRunning now p → is_live now p ≡ true
IsRunning-is_live now p h = rw h.0 (ground (arith, h.1))
