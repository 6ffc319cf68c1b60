-- ===== src/PathManager/Auth.antt =====
-- internal/core/auth.go, internal/core/ip.go and the checks of internal/conf/credential.go.
use mediamtx.Base.{
  ◌==◌, ℕ, Bool, true, false, ◌&&◌, ◌||◌, not, List, [], ◌∷◌, Option, none, some, if◌then◌else◌,
  drop,
}
use mediamtx.Base.Text.{Text, codes, is_text, same}

-- An entry of a list of addresses: a single one, or a network.
pub data IpEntry : Type 0 where
  ip : ℕ → IpEntry
  network : ℕ → IpEntry

-- What the header of an RTSP request gives. Its fields may be set also where it is not valid.
pub record RtspHeader : Type 0 where
  pub is_valid : Bool
  pub is_basic : Bool
  pub is_digest : Bool
  pub user : Text
  pub pass : Text

pub record AccessRequest : Type 0 where
  pub name : Text
  pub query : Text
  pub publish : Bool
  pub skip_auth : Bool
  pub address : ℕ
  pub user : Text
  pub pass : Text
  pub rtsp : Option RtspHeader

-- The fields of a path's configuration that say who may do what. No list means no limit.
pub record Access : Type 0 where
  pub publish_user : Text
  pub publish_pass : Text
  pub publish_ips : Option (List IpEntry)
  pub read_user : Text
  pub read_pass : Text
  pub read_ips : Option (List IpEntry)

-- The libraries for addresses, hashes and RTSP, and the external server.
pub record AuthLibrary : Type 0 where
  pub address_equal : ℕ → ℕ → Bool
  pub network_contains : ℕ → ℕ → Bool
  pub sha256_base64 : Text → Text
  pub argon2_verify : Text → Text → Bool
  pub digest_validate : AccessRequest → Text → Text → Bool
  pub external_allows : AccessRequest → Bool

-- `strings.HasPrefix`
unfoldable pub has_prefix : Text → Text → Bool
has_prefix [] v = true
has_prefix (c ∷ cs) [] = false
has_prefix (c ∷ cs) (d ∷ ds) = let rest = has_prefix cs ds in if c == d then rest else false

pub data AuthError : Type 0 where
  external_failed address_not_allowed digest_failed invalid_credentials : AuthError

unfoldable pub is_sha256 : Text → Bool
is_sha256 value = not (is_text "" value) && has_prefix (codes "sha256:") value

unfoldable pub is_argon2 : Text → Bool
is_argon2 value = not (is_text "" value) && has_prefix (codes "argon2:") value

module _ (lib : AuthLibrary) where
  -- `Credential.Check`
  unfoldable pub check : Text → Text → Bool
  check value guess =
      if is_sha256 value
      then same (drop 7 value) (lib.sha256_base64 guess)
      else if is_argon2 value
      then lib.argon2_verify guess (drop 7 value)
      else if is_text "" value
      then true
      else same value guess

  unfoldable pub ip_equal_or_in_range : ℕ → List IpEntry → Bool
  ip_equal_or_in_range a [] = false
  ip_equal_or_in_range a (ip b ∷ ips) = lib.address_equal b a || ip_equal_or_in_range a ips
  ip_equal_or_in_range a (network n ∷ ips) = lib.network_contains n a || ip_equal_or_in_range a ips

  -- The user and the password that count: those of a basic header, if there is one.
  unfoldable pub with_header : AccessRequest → AccessRequest
  with_header req = elim req.rtsp [
    | none ↦ req
    | some h ↦ if h.is_valid && h.is_basic then record req { user = h.user; pass = h.pass } else req
  ]

  abbrev pub uses_digest : AccessRequest → Bool
  uses_digest req = elim req.rtsp [ none ↦ false | some h ↦ h.is_digest ]

  unfoldable pub check_address : AccessRequest → Option (List IpEntry) → Option AuthError
  check_address req none = none
  check_address req (some ips) =
      if ip_equal_or_in_range req.address ips then none else some address_not_allowed

  unfoldable pub check_user : AccessRequest → Text → Text → Option AuthError
  check_user req user pass =
      if is_text "" user
      then none
      else if uses_digest req
      then if lib.digest_validate req user pass then none else some digest_failed
      else if not (check user req.user) || not (check pass req.pass)
      then some invalid_credentials
      else none

  unfoldable pub check_access :
      AccessRequest → Option (List IpEntry) → Text → Text → Option AuthError
  check_access req ips user pass = elim (check_address req ips) [
    | some e ↦ some e
    | none ↦ check_user req user pass
  ]

  -- `none` means that access is allowed. The URL of the external server is empty or not.
  unfoldable pub do_authentication : Bool → Access → AccessRequest → Option AuthError
  do_authentication has_external_url access request =
      let req = with_header request in
      if has_external_url && not (lib.external_allows req)
      then some external_failed
      else if req.publish
      then check_access req access.publish_ips access.publish_user access.publish_pass
      else check_access req access.read_ips access.read_user access.read_pass
