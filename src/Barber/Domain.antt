-- ===== src/Barber/Domain.antt =====
-- services/barber-service/internal/domain/domain.go
use shearix_platform.Shared.{String, Bool, Option, List}
use shearix_platform.Platform.Ids.{Uuid}

pub record Branch : Type 0 where
  pub id : Uuid
  pub name : String
  pub address : String
  pub active : Bool

pub record StaffBarber : Type 0 where
  pub id : Uuid
  pub display_name : String
  pub bio : String
  pub active : Bool
  pub identity_id : Option Uuid
  pub branch_ids : List Uuid

pub record BranchInput : Type 0 where
  pub name : String
  pub address : String
  pub active : Option Bool

pub record BarberInput : Type 0 where
  pub display_name : String
  pub bio : String
  pub active : Option Bool
  pub branch_ids : List Uuid
