-- ===== src/Outbound.antt =====
-- app/control_plane/outbound.py: the guard that every outbound URL passes. Python's URL parser,
-- address classes and resolver are a parameter, `Network`.
pub mod Guard
pub mod Safety
pub mod Opening
use private_ai_workspace_eks.Prelude.{
  ℕ, suc, ◌/◌, String, ◌<>◌, Bool, true, false, Option, none, some, List, [], ◌∷◌, ltb, ◌||◌,
  contains, string_eq, if◌then◌else◌,
}
use private_ai_workspace_eks.Prelude.Text.{len, slice_to}
use private_ai_workspace_eks.Prelude.Dict.{Dict}

-- `REJECT_*`
pub data Reason : Type 0 where
  scheme credentials host_not_allowed dns metadata private_ip malformed : Reason

unfoldable pub reason_text : Reason → String
reason_text scheme = "scheme"
reason_text credentials = "credentials"
reason_text host_not_allowed = "host_not_allowed"
reason_text dns = "dns"
reason_text metadata = "metadata"
reason_text private_ip = "private_ip"
reason_text malformed = "malformed"

pub record ValidatedTarget : Type 0 where
  pub target_scheme : String
  pub host : String
  pub ip : String
  pub port : ℕ
  pub path : String

-- The attributes of `urlsplit(url)`. Reading `port` may raise, which is `none`.
pub record SplitUrl : Type 0 where
  pub url_scheme : String
  pub username : Option String
  pub password : Option String
  pub hostname : Option String
  pub url_port : Option (Option ℕ)
  pub url_path : String
  pub query : String

-- The attributes of an `ipaddress` object that the guard reads.
pub record Address : Type 0 where
  pub shown : String
  pub is_private : Bool
  pub is_loopback : Bool
  pub is_link_local : Bool
  pub is_reserved : Bool
  pub is_multicast : Bool
  pub is_unspecified : Bool

pub data IpAddress : Type 0 where
  v4 : Address → IpAddress
  v6 : Address → Option Address → IpAddress

-- `urlsplit(url.strip())`, `ipaddress.ip_address` and `getaddrinfo`; `none` where they raise a
-- `ValueError`, or a `gaierror`. Other exceptions of the resolver are not modelled.
pub record Network : Type 0 where
  pub urlsplit : String → Option SplitUrl
  pub ip_address : String → Option IpAddress
  pub getaddrinfo : String → ℕ → Option (List String)

-- `_METADATA_IPS`
unfoldable pub metadata_ips : List String
metadata_ips = "169.254.169.254" ∷ "fd00:ec2::254" ∷ []

abbrev is_unsafe : Address → Bool
is_unsafe a =
    a.is_private || a.is_loopback || a.is_link_local || a.is_reserved || a.is_multicast
    || a.is_unspecified

abbrev judge : Address → Option Reason
judge a = if is_unsafe a then some private_ip else none

-- The rest of `_classify_ip`, behind the parser: an IPv4-mapped address is unwrapped.
unfoldable pub classify_address : Option IpAddress → Option Reason
unfolding metadata_ips
classify_address none = some malformed
classify_address (some (v4 a)) = judge a
classify_address (some (v6 a none)) = judge a
classify_address (some (v6 a (some mapped))) =
    if contains metadata_ips mapped.shown then some metadata else judge mapped

unfoldable pub classify_ip : ⦃net : Network⦄ → String → Option Reason
unfolding classify_address metadata_ips
classify_ip ⦃net⦄ raw_ip =
    if contains metadata_ips raw_ip then some metadata else classify_address (net.ip_address raw_ip)

pub record OutboundResponse : Type 0 where
  pub status : ℕ
  pub headers : Dict String String
  pub body : String

-- `read(max + 1)`, cut to `max`. A body is a text with a character for each byte.
unfoldable pub capped : ℕ → String → String
capped limit sent =
    let got = slice_to (suc limit) sent in if ltb limit (len got) then slice_to limit got else got
