-- ===== src/Appointment/Queries.antt =====
-- services/appointment-service/internal/repository/repository.go, lines 126-186 and 253-271: what
-- the service reads. A read changes no table, so its tables are an argument only.
use shearix_platform.Shared.{
  Bool, false, ◌&&◌, ◌||◌, not, none, some, List, [], ◌∷◌, map, ◌==◌, Result, select, first,
  if◌then◌else◌,
}
use shearix_platform.GoTime.{Time, before, after}
use shearix_platform.Platform.Ids.{Uuid}
use shearix_platform.Appointment.Domain.{Appointment}
use shearix_platform.Appointment.Store.{
  Row, Db, RepoError, not_found, Env, load_appointment, ◌>>=◌, ◌>>◌, pure, send, read, expect,
  with_tenant_tx,
}
use shearix_platform.Appointment.Store.Constraints.{is_active}
use shearix_platform.Appointment.Repository.{scan, find_row}
use text.Mathlib.Text.{◌==◌ as str_eq}

-- ORDER BY start_at DESC
unfoldable pub insert_desc : Row → List Row → List Row
insert_desc r [] = r ∷ []
insert_desc r (s ∷ rest) =
    if before r.start_at s.start_at then s ∷ insert_desc r rest else r ∷ s ∷ rest

unfoldable pub sort_desc : List Row → List Row
unfolding insert_desc
sort_desc [] = []
sort_desc (r ∷ rest) = insert_desc r (sort_desc rest)

-- customer_id=$2; a row with no customer has NULL, which equals nothing.
abbrev pub is_customer : Uuid → Row → Bool
is_customer customer r = elim r.customer_id [ none ↦ false | some c ↦ c == customer ]

-- Get
unfoldable pub get : Env → Uuid → Uuid → Db → Result RepoError Appointment × Db
unfolding with_tenant_tx
get env tenant id = with_tenant_tx env do
  send env load_appointment
  found ← read (λ db. find_row tenant id db.appointments)
  row ← expect not_found found
  pure (scan row)

-- List
unfoldable pub list : Env → Uuid → Db → Result RepoError (List Appointment) × Db
unfolding with_tenant_tx sort_desc
list env tenant = with_tenant_tx env do
  send env load_appointment
  rows ← read (λ db. select (λ (r : Row). r.tenant_id == tenant) db.appointments)
  pure (map scan (sort_desc rows))

-- The condition of ListForCustomer.
unfoldable pub is_listed : Uuid → Uuid → Bool → Time → Row → Bool
is_listed tenant customer upcoming now r =
    r.tenant_id == tenant
    && is_customer customer r
    && (if upcoming
        then not (before r.start_at now)
          && (str_eq r.status "pending" || str_eq r.status "confirmed")
        else (before r.start_at now
            || str_eq r.status "cancelled"
            || str_eq r.status "completed"
            || str_eq r.status "no_show"))

-- ListForCustomer
unfoldable pub list_for_customer :
    Env → Uuid → Uuid → Bool → Db → Result RepoError (List Appointment) × Db
unfolding with_tenant_tx sort_desc is_listed
list_for_customer env tenant customer upcoming = with_tenant_tx env do
  send env load_appointment
  rows ← read (λ db. select (is_listed tenant customer upcoming env.now) db.appointments)
  pure (map scan (sort_desc rows))

-- GetForCustomer
unfoldable pub get_for_customer : Env → Uuid → Uuid → Uuid → Db → Result RepoError Appointment × Db
unfolding with_tenant_tx
get_for_customer env tenant customer id = with_tenant_tx env do
  send env load_appointment
  found ← read (λ db.
      first (λ (r : Row). r.tenant_id == tenant && is_customer customer r && r.id == id)
        db.appointments)
  row ← expect not_found found
  pure (scan row)

-- The condition of Occupancy.
unfoldable pub is_occupying : Uuid → Uuid → Time → Time → Row → Bool
unfolding is_active
is_occupying tenant barber from to r =
    r.tenant_id == tenant
    && r.barber_id == barber
    && is_active r.status
    && before r.occupied_start_at to
    && after r.occupied_end_at from

-- Occupancy
unfoldable pub occupancy :
    Env → Uuid → Uuid → Time → Time → Db → Result RepoError (List Appointment) × Db
unfolding with_tenant_tx is_occupying
occupancy env tenant barber from to = with_tenant_tx env do
  send env load_appointment
  rows ← read (λ db. select (is_occupying tenant barber from to) db.appointments)
  pure (map scan rows)
