-- ===== src/Tests/Shops.antt =====
-- A shop with one branch, one barber and one service.
use shearix_platform.Shared.{
  String, ◌≡◌, ◌⊎◌, refl, false, err, true, all, none, List, [], ◌∷◌, ok, pos,
}
use shearix_platform.Shared.Actions.{◌>>=◌, ◌>>◌, Gives, checked, stop_if, renamed, call}
use shearix_platform.Platform.AdminAuth.{can_read, can_write}
use shearix_platform.Platform.TenantContext.{Context}
use shearix_platform.Catalog.Domain.{Offer, ServiceInput}
use shearix_platform.Catalog.Service.{
  CatalogError, write_error, Clients, authorize_admin, valid_service, is_amount, is_currency,
  save_service,
}
use shearix_platform.Catalog.Stored.{IsOffered, save_service-cases}
use shearix_platform.Catalog.Service as catalog
use shearix_platform.Tests.Libraries.{plain_library}

abbrev admin : Context
admin = record { tenant_id = 1; app_type = "admin"; request_id = "r" }

abbrev haircut : Offer
haircut = record {
  id = 4;
  name = "Cut";
  duration_minutes = pos 30;
  buffer_before_minutes = pos 0;
  buffer_after_minutes = pos 5;
  price = "12.50";
  currency = "EUR";
  active = true;
}

abbrev input : ServiceInput
input = record {
  name = "Cut";
  duration_minutes = pos 30;
  buffer_before_minutes = pos 0;
  buffer_after_minutes = pos 5;
  price = "12.50";
  currency = "EUR";
  active = none;
}

abbrev offers : catalog.Repository (List Offer)
offers = record {
  services = λ t b s. (ok s, s);
  public_barber_services = λ t s. (ok [], s);
  service = λ t i s. (ok haircut, s);
  save = λ t i x s. (ok haircut, haircut ∷ s);
  assign = λ t b i s. (ok tt, s);
  assignments = λ t b s. (ok s, s);
  unassign = λ t b i s. (ok tt, s);
  active_assigned_service = λ t b i s. (ok haircut, s);
}

abbrev owners : Clients
owners = record { authenticate = λ t c. ok "OWNER"; ensure_exists = λ t b. ok tt }

haircut_saved : Gives (save_service plain_library offers owners admin "c" 4 input) [] haircut
unfolding save_service ◌>>=◌ ◌>>◌ checked stop_if renamed call authorize_admin can_read can_write
    valid_service is_amount is_currency all
haircut_saved = refl

save_service-cases_example :
    ((e : CatalogError) × (save_service plain_library offers owners admin "c" 4 input []
        ≡ (err e, []))
      × ((authorize_admin owners admin "c" true ≡ err e)
          ⊎ (valid_service plain_library
                (record input { name = plain_library.trim_space input.name })
              ≡ false)))
    ⊎ ((admin.app_type ≡ "admin")
        × ((role : String) × (owners.authenticate admin "c" ≡ ok role)
            × ((role ≡ "OWNER") ⊎ (role ≡ "MANAGER")))
        × IsOffered plain_library (record input { name = plain_library.trim_space input.name })
        × (save_service plain_library offers owners admin "c" 4 input []
            ≡ call write_error
                (offers.save 1 4 (record input { name = plain_library.trim_space input.name }))
                []))
save_service-cases_example = save_service-cases plain_library offers owners admin "c" 4 input []
