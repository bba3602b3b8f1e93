-- ===== src/Tenant/Service.antt =====
-- services/tenant-service/internal/service/service.go, lines 62-251: TenantService over a repository,
-- an interface on a store `S`. The DNS lookup, the random token and net.ParseIP are arguments.
pub mod Verified
use shearix_platform.Shared.{
  ℕ, ◌+◌, String, Bool, true, false, ◌&&◌, ◌||◌, not, Option, none, some, List, [], ◌∷◌, any,
  length, leb, ltb, ◌==◌, codes, Result, ok, err, str_append, str_eq, if◌then◌else◌,
}
use shearix_platform.Shared.Actions.{
  Action, ◌>>=◌, ◌>>◌, done, fail, checked, stop_if, renamed, call,
}
use shearix_platform.Platform.Ids.{Uuid, is_nil}
use shearix_platform.Platform.Library.{Library}
use shearix_platform.Tenant.Domain.{
  DomainResolution, Settings, UpdateSettingsInput, Tenant, PlatformAudit, CreateTenantInput,
  CreateDomainInput, TenantDomain,
}
use shearix_platform.Tenant.Settings.{InputError, normalize_settings, merge_settings}
use shearix_platform.Tenant.Hostname.{normalize_hostname}

-- repository.ErrNotFound, and any other error of the repository.
pub data RepoError : Type 0 where
  not_found failed : RepoError

pub data ServiceError : Type 0 where
  invalid_input verification_failed verification_required : ServiceError
  verification_unavailable no_randomness : ServiceError
  of_repository : RepoError → ServiceError

-- A domain with the hash of its token, empty if there is none.
pub record Candidate : Type 0 where
  pub domain : TenantDomain
  pub token_hash : String

pub record Repository (S : Type 0) : Type 0 where
  pub resolve_domain : List ℕ → Action RepoError S DomainResolution
  pub settings : Uuid → Action RepoError S Settings
  pub update_settings : Uuid → Settings → Action RepoError S Settings
  pub create_tenant : String → Settings → Action RepoError S Tenant
  pub tenant : Uuid → Action RepoError S Tenant
  pub tenants : Action RepoError S (List Tenant)
  pub set_tenant_status : Uuid → String → String → String → Action RepoError S Tenant
  pub platform_audit : Option Uuid → Action RepoError S (List PlatformAudit)
  pub create_domain : Uuid → List ℕ → String → String → Action RepoError S TenantDomain
  pub domains : Uuid → Action RepoError S (List TenantDomain)
  pub domain : Uuid → Uuid → Action RepoError S TenantDomain
  pub domain_for_verification : Uuid → Uuid → Action RepoError S Candidate
  pub mark_verification_succeeded : Uuid → Uuid → Action RepoError S TenantDomain
  pub mark_verification_failed : Uuid → Uuid → Action RepoError S TenantDomain
  pub activate_domain : Uuid → Uuid → Action RepoError S TenantDomain
  pub deactivate_domain : Uuid → Uuid → Action RepoError S TenantDomain

-- What the service is made with: package time's zones, net.ParseIP, the DNS, whose error is `none`,
-- and whether localhost is allowed. `hash` is the SHA-256 sum of a text, as a text.
pub record Setup : Type 0 where
  pub lib : Library
  pub has_zone : String → Bool
  pub is_ip : List ℕ → Bool
  pub lookup_txt : String → Option (List String)
  pub hash : String → String
  pub allow_localhost : Bool

unfoldable pub parsed : Library → String → Result ServiceError Uuid
parsed lib text = elim (lib.parse_uuid text) [ none ↦ err invalid_input | some id ↦ ok id ]

unfoldable pub input_error : InputError → ServiceError
input_error e = invalid_input

-- verificationValue
unfoldable pub verification_value : String → String
verification_value token = str_append "barber-verify=" token

-- validDomainType
unfoldable pub valid_domain_type : String → Bool
valid_domain_type value = str_eq value "admin" || str_eq value "booking"

module _ {S : Type 0} (repo : Repository S) (setup : Setup) where
  -- Resolve
  unfoldable pub resolve : String → Action ServiceError S DomainResolution
  unfolding ◌>>=◌ checked renamed call input_error
  resolve hostname = do
    name ← checked (
        renamed input_error
          (normalize_hostname setup.lib setup.is_ip setup.allow_localhost hostname))
    call of_repository (repo.resolve_domain name)

  unfoldable pub resolved : Result RepoError DomainResolution → Result ServiceError Bool
  resolved (ok r) = ok true
  resolved (err not_found) = ok false
  resolved (err failed) = err (of_repository failed)

  unfoldable pub authorized_name : Result InputError (List ℕ) → Action ServiceError S Bool
  unfolding resolved
  authorized_name (err e) s = (ok false, s)
  authorized_name (ok name) s = let (r, s') = repo.resolve_domain name s in (resolved r, s')

  -- TLSAuthorized
  unfoldable pub tls_authorized : String → Action ServiceError S Bool
  unfolding authorized_name
  tls_authorized hostname =
      authorized_name (normalize_hostname setup.lib setup.is_ip setup.allow_localhost hostname)

  -- UpdateSettings
  unfoldable pub update_settings : String → UpdateSettingsInput → Action ServiceError S Settings
  unfolding ◌>>=◌ checked renamed call parsed input_error
  update_settings tenant_id input = do
    id ← checked (parsed setup.lib tenant_id)
    current ← call of_repository (repo.settings id)
    merged ← checked (renamed input_error (merge_settings setup.lib setup.has_zone current input))
    call of_repository (repo.update_settings id merged)

  -- CreateTenant
  unfoldable pub create_tenant : CreateTenantInput → Action ServiceError S Tenant
  unfolding ◌>>=◌ ◌>>◌ checked stop_if renamed call input_error
  create_tenant input = do
    let name = setup.lib.trim_space input.name
    stop_if (str_eq name "" || ltb 160 (length (codes name))) invalid_input
    settings ←
        checked (renamed input_error (normalize_settings setup.lib setup.has_zone input.settings))
    call of_repository (repo.create_tenant name settings)

  -- Tenant
  unfoldable pub find_tenant : String → Action ServiceError S Tenant
  unfolding ◌>>=◌ checked call parsed
  find_tenant tenant_id = do
    id ← checked (parsed setup.lib tenant_id)
    call of_repository (repo.tenant id)

  -- Tenants
  unfoldable pub list_tenants : Action ServiceError S (List Tenant)
  unfolding call
  list_tenants = call of_repository repo.tenants

  -- SetTenantStatus
  unfoldable pub set_tenant_status :
      String → String → String → String → Action ServiceError S Tenant
  unfolding ◌>>=◌ ◌>>◌ checked stop_if call parsed
  set_tenant_status tenant_id status actor request_id = do
    id ← checked (parsed setup.lib tenant_id)
    stop_if
        (not (str_eq status "active") && not (str_eq status "suspended")
          || str_eq (setup.lib.trim_space actor) ""
          || str_eq (setup.lib.trim_space request_id) "")
        invalid_input
    call of_repository (
        repo.set_tenant_status id status (setup.lib.trim_space actor)
          (setup.lib.trim_space request_id))

  -- PlatformAudit
  unfoldable pub platform_audit : String → Action ServiceError S (List PlatformAudit)
  unfolding ◌>>=◌ checked call parsed
  platform_audit tenant_id =
      if str_eq tenant_id "" then call of_repository (repo.platform_audit none) else do
        id ← checked (parsed setup.lib tenant_id)
        call of_repository (repo.platform_audit (some id))

  unfoldable pub drawn : Option String → Result ServiceError String
  drawn none = err no_randomness
  drawn (some token) = ok token

  -- CreateDomain; `token` is what verificationToken draws, `none` if it fails.
  unfoldable pub create_domain :
      Option String → String → CreateDomainInput → Action ServiceError S TenantDomain
  unfolding ◌>>=◌ ◌>>◌ checked stop_if renamed call done parsed drawn input_error
  create_domain token tenant_id input = do
    id ← checked (parsed setup.lib tenant_id)
    name ← checked (
        renamed input_error
          (normalize_hostname setup.lib setup.is_ip setup.allow_localhost input.hostname))
    stop_if (not (valid_domain_type input.domain_type)) invalid_input
    text ← checked (drawn token)
    created ←
        call of_repository
          (repo.create_domain id name input.domain_type (setup.hash (verification_value text)))
    done
        (record created { verification_token = text; verification_value = verification_value text })

  -- Domains
  unfoldable pub list_domains : String → Action ServiceError S (List TenantDomain)
  unfolding ◌>>=◌ checked call parsed
  list_domains tenant_id = do
    id ← checked (parsed setup.lib tenant_id)
    call of_repository (repo.domains id)

  -- Some answer of the DNS has the hash of the token.
  unfoldable pub has_proof : Candidate → Bool
  has_proof c = elim (setup.lookup_txt c.domain.verification_record) [
    | none ↦ false
    | some answers ↦ any (λ answer. str_eq (setup.hash answer) c.token_hash) answers
  ]

  -- What a failed mark that found no row means: another request may have verified the domain.
  unfoldable pub recheck : Result RepoError TenantDomain → Result ServiceError TenantDomain
  recheck (err e) = err (of_repository not_found)
  recheck (ok current) = if current.verified then ok current else err (of_repository not_found)

  unfoldable pub marked_failed :
      Uuid → Uuid → Result RepoError TenantDomain → Action ServiceError S TenantDomain
  unfolding recheck
  marked_failed tenant id (ok domain) s = (err verification_failed, s)
  marked_failed tenant id (err failed) s = (err (of_repository failed), s)
  marked_failed tenant id (err not_found) s =
      let (r, s') = repo.domain tenant id s in (recheck r, s')

  -- A domain that is not verified yet, with a token.
  unfoldable pub prove : Uuid → Uuid → Candidate → Action ServiceError S TenantDomain
  unfolding has_proof marked_failed call
  prove tenant id c s =
      if has_proof c
      then call of_repository (repo.mark_verification_succeeded tenant id) s
      else (let (r, s') = repo.mark_verification_failed tenant id s in marked_failed tenant id r s')

  unfoldable pub verify_candidate : Uuid → Uuid → Candidate → Action ServiceError S TenantDomain
  unfolding prove
  verify_candidate tenant id c s =
      if c.domain.verified
      then (ok c.domain, s)
      else if str_eq c.token_hash ""
      then (err verification_unavailable, s)
      else prove tenant id c s

  -- VerifyDomain
  unfoldable pub verify_domain : String → String → Action ServiceError S TenantDomain
  unfolding ◌>>=◌ checked call parsed verify_candidate
  verify_domain tenant_id domain_id = do
    tenant ← checked (parsed setup.lib tenant_id)
    id ← checked (parsed setup.lib domain_id)
    c ← call of_repository (repo.domain_for_verification tenant id)
    verify_candidate tenant id c

  -- ActivateDomain
  unfoldable pub activate_domain : String → String → Action ServiceError S TenantDomain
  unfolding ◌>>=◌ ◌>>◌ checked stop_if call parsed
  activate_domain tenant_id domain_id = do
    tenant ← checked (parsed setup.lib tenant_id)
    id ← checked (parsed setup.lib domain_id)
    current ← call of_repository (repo.domain tenant id)
    stop_if (not current.verified) verification_required
    call of_repository (repo.activate_domain tenant id)

  -- DeactivateDomain
  unfoldable pub deactivate_domain : String → String → Action ServiceError S TenantDomain
  unfolding ◌>>=◌ checked call parsed
  deactivate_domain tenant_id domain_id = do
    tenant ← checked (parsed setup.lib tenant_id)
    id ← checked (parsed setup.lib domain_id)
    call of_repository (repo.deactivate_domain tenant id)
