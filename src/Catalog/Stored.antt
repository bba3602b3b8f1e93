-- ===== src/Catalog/Stored.antt =====
-- What the catalog stores, and who may store it.
use shearix_platform.Shared.{
  String, Bool, true, false, ◌&&◌, not, ◌≡◌, refl, ◌≢◌, ◌⊎◌, pos, ◌≤ℤ◌, ltb_ℤ, ltb_ℤ→le, Result, ok,
  err, str_eq, inl, inr, Bool-cases, Result-cases, codes, arith, if◌then◌else◌,
}
use shearix_platform.Shared.Actions.{◌>>=◌, ◌>>◌, go_on, checked, stop_if, call}
use shearix_platform.Platform.Ids.{Uuid}
use shearix_platform.Platform.Library.{Library}
use shearix_platform.Platform.AdminAuth.{can_write}
use shearix_platform.Platform.TenantContext.{Context}
use shearix_platform.Platform.SchedulingDeps.{DependencyError}
use shearix_platform.Catalog.Domain.{ServiceInput}
use shearix_platform.Catalog.Service.{
  CatalogError, invalid, unauthorized, Repository, Clients, write_error, authorize_role,
  authorize_admin, is_amount, is_currency, valid_service, save_service,
}
use text.Mathlib.TextEquality.{eq_iff}

writer :
    (r : Result DependencyError String) {u : Unit {0}}
    → authorize_role true r ≡ ok u
    → (role : String) × (r ≡ ok role) × ((role ≡ "OWNER") ⊎ (role ≡ "MANAGER"))
unfolding authorize_role can_write
writer (err e) h = absurd (cc)
writer (ok role) h = (role, refl, ground (arith, h, eq_iff role "OWNER", eq_iff role "MANAGER"))

admin :
    (b : Bool) (r : Result CatalogError (Unit {0})) {u : Unit {0}}
    → (if not b then err unauthorized else r) ≡ ok u
    → (b ≡ true) × (r ≡ ok u)
admin true r h = (refl, h)
admin false r h = absurd (cc)

-- A name, times that are not negative, a price and a currency.
pub record IsOffered (lib : Library) (input : ServiceInput) : Type 0 where
  pub named : lib.trim_space input.name ≢ ""
  pub duration : pos 0 ≤ℤ input.duration_minutes
  pub lead : pos 0 ≤ℤ input.buffer_before_minutes
  pub trail : pos 0 ≤ℤ input.buffer_after_minutes
  pub price : is_amount (codes input.price) ≡ true
  pub currency : is_currency (codes input.currency) ≡ true

and_true : (b c : Bool) → (b && c) ≡ true → (b ≡ true) × (c ≡ true)
and_true b c h = ground arith

valid_service-IsOffered :
    (lib : Library) (input : ServiceInput) → valid_service lib input ≡ true → IsOffered lib input
unfolding valid_service
valid_service-IsOffered lib input h =
    let (h1, currency) = and_true _ (is_currency (codes input.currency)) h in
    let (h2, price) = and_true _ (is_amount (codes input.price)) h1 in
    let (h3, trail) = and_true _ (not (ltb_ℤ input.buffer_after_minutes (pos 0))) h2 in
    let (h4, lead) = and_true _ (not (ltb_ℤ input.buffer_before_minutes (pos 0))) h3 in
    let (named, duration) = and_true _ (not (ltb_ℤ input.duration_minutes (pos 0))) h4 in
    record {
      named = λ e. absurd (cc ((eq_iff (lib.trim_space input.name) "").1 e, named));
      duration = ltb_ℤ→le input.duration_minutes (pos 0) (ground (arith, duration));
      lead = ltb_ℤ→le input.buffer_before_minutes (pos 0) (ground (arith, lead));
      trail = ltb_ℤ→le input.buffer_after_minutes (pos 0) (ground (arith, trail));
      price = price;
      currency = currency;
    }

-- A Save whose caller is not authorized or whose input is not valid is refused, and leaves the store as
-- it was. Any other Save was
-- asked in the admin application by an owner or a manager, for an input that under its trimmed name
-- has a name that is not blank, times that are not negative, an amount and a currency, and its answer
-- and its final store are those of the repository's save of that input for that tenant.
pub save_service-cases :
    {S : Type 0} (lib : Library) (repo : Repository S) (clients : Clients) (t : Context)
    (cookie : String) (id : Uuid) (input : ServiceInput) (s : S)
    → ((e : CatalogError) × (save_service lib repo clients t cookie id input s ≡ (err e, s))
        × ((authorize_admin clients t cookie true ≡ err e)
            ⊎ (valid_service lib (record input { name = lib.trim_space input.name }) ≡ false)))
      ⊎ ((t.app_type ≡ "admin")
          × ((role : String) × (clients.authenticate t cookie ≡ ok role)
              × ((role ≡ "OWNER") ⊎ (role ≡ "MANAGER")))
          × IsOffered lib (record input { name = lib.trim_space input.name })
          × (save_service lib repo clients t cookie id input s
              ≡ call write_error
                  (repo.save t.tenant_id id (record input { name = lib.trim_space input.name }))
                  s))
unfolding save_service authorize_admin ◌>>=◌ ◌>>◌ go_on checked stop_if
save_service-cases lib repo clients t cookie id input s =
    elim (Result-cases (authorize_admin clients t cookie true)) [
      | inr (e, refused) ↦ inl (e, rw refused refl, inl refused)
      | inl (u, allowed) ↦
          let (app, role) =
            admin (str_eq t.app_type "admin") (authorize_role true (clients.authenticate t cookie))
              allowed in
          elim (Bool-cases
            (valid_service lib (record input { name = lib.trim_space input.name }))) [
              | inl valid ↦ inr (
                (eq_iff t.app_type "admin").0 app,
                writer (clients.authenticate t cookie) role,
                valid_service-IsOffered lib _ valid,
                rw (allowed, valid) refl,
              )
              | inr blank ↦ inl (invalid, rw (allowed, blank) refl, inr blank)
            ]
    ]
