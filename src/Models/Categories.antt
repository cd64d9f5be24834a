-- ===== src/Models/Categories.antt =====
-- src/domains/categories/models.py
use kupio_backend.Base.{ℕ, Option, Bool, is_some}

pub record Category : Type 0 where
  pub id : ℕ
  pub name : ℕ
  pub icon : Option ℕ
  pub depth : ℕ
  pub parent_id : Option ℕ
  pub deleted_at : Option ℕ

abbrev pub is_deleted : Category → Bool
is_deleted c = is_some c.deleted_at
