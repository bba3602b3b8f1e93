-- ===== src/Catalog/Domain.antt =====
-- services/catalog-service/internal/domain/domain.go
use shearix_platform.Shared.{String, Bool, Option, List, ℤ}
use shearix_platform.Platform.Ids.{Uuid}

pub record Offer : Type 0 where
  pub id : Uuid
  pub name : String
  pub duration_minutes : ℤ
  pub buffer_before_minutes : ℤ
  pub buffer_after_minutes : ℤ
  pub price : String
  pub currency : String
  pub active : Bool

pub record ServiceInput : Type 0 where
  pub name : String
  pub duration_minutes : ℤ
  pub buffer_before_minutes : ℤ
  pub buffer_after_minutes : ℤ
  pub price : String
  pub currency : String
  pub active : Option Bool

pub record PublicBarberServices : Type 0 where
  pub barber_id : Uuid
  pub service_ids : List Uuid
