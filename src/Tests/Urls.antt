-- ===== src/Tests/Urls.antt =====
-- Tests of Outbound, with a resolver that knows two hosts.
use private_ai_workspace_eks.Prelude.{
  String, ◌≡◌, ◌≢◌, refl, inl, true, false, Option, none, some, List, [], ◌∷◌, ◌==◌, string_eq,
  if◌then◌else◌, leb,
}
use private_ai_workspace_eks.Prelude.Text.{len, slice_to}
use private_ai_workspace_eks.Outbound.{
  ValidatedTarget, SplitUrl, Address, v4, Network, classify_ip, classify_address, metadata_ips,
  capped,
}
use private_ai_workspace_eks.Outbound.Guard.{accept, validate_outbound_url, judge_ip, check_all}
use private_ai_workspace_eks.Outbound.Safety.{
  IsAllowedUrl, IsPinned, validate_outbound_url_sound, validate_outbound_url-metadata,
}
use private_ai_workspace_eks.Outbound.Opening.{
  Wire, Connection, Received, answered, open_request, received, guarded_open, guarded_open-pinned,
}
use private_ai_workspace_eks.Tests.{python}

abbrev pub url : String
url = "HTTPS://api.example/v1"

abbrev parts : SplitUrl
parts = record {
  url_scheme = "HTTPS";
  username = none;
  password = none;
  hostname = some "api.example";
  url_port = some none;
  url_path = "/v1";
  query = "";
}

abbrev public : Address
public = record {
  shown = "93.184.216.34";
  is_private = false;
  is_loopback = false;
  is_link_local = false;
  is_reserved = false;
  is_multicast = false;
  is_unspecified = false;
}

abbrev resolve : String → Option (List String)
resolve host =
    if host == "api.example"
    then some ("93.184.216.34" ∷ [])
    else if host == "evil.example"
    then some ("93.184.216.34" ∷ "169.254.169.254" ∷ [])
    else none

instance abbrev pub network : Network
network = record {
  urlsplit = λ u. if u == url then some parts else none;
  ip_address = λ ip. if ip == "93.184.216.34" then some (v4 public) else none;
  getaddrinfo = λ host port. resolve host;
}

abbrev target : ValidatedTarget
target = record {
  target_scheme = "https";
  host = "api.example";
  ip = "93.184.216.34";
  port = 443;
  path = "/v1";
}

accepted : validate_outbound_url url ("api.example" ∷ []) false [] ≡ accept target
unfolding validate_outbound_url check_all judge_ip classify_ip classify_address metadata_ips
    string_eq
accepted = refl

validate_outbound_url_sound_example :
    IsAllowedUrl url ("api.example" ∷ []) false target × IsPinned [] target
validate_outbound_url_sound_example =
    validate_outbound_url_sound url ("api.example" ∷ []) false [] target accepted

abbrev evil : ValidatedTarget
evil = record target { host = "evil.example" }

validate_outbound_url-metadata_example :
    validate_outbound_url url ("evil.example" ∷ []) false ("evil.example" ∷ []) ≢ accept evil
unfolding classify_ip metadata_ips string_eq
validate_outbound_url-metadata_example =
    validate_outbound_url-metadata url ("evil.example" ∷ []) false ("evil.example" ∷ []) evil
      ("93.184.216.34" ∷ "169.254.169.254" ∷ []) "169.254.169.254" refl refl (inl refl)

instance abbrev pub wire : Wire
wire = record {
  exchange = λ c r.
      answered (record { received_status = 200; received_headers = []; received_body = "hello" });
}

guarded_open-pinned_example :
    (c : Connection) × (sent : Received) × (wire.exchange c (open_request target "GET" [] none)
      ≡ answered sent)
    × (c.pinned_ip ≡ "93.184.216.34")
    × (c.pinned_port ≡ 443)
    × (c.presented_host ≡ "api.example")
    × (c.tls ≡ (target.target_scheme == "https"))
    × (slice_to 3 "hello" ≡ slice_to 3 sent.received_body)
    × (leb (len (slice_to 3 "hello")) 3 ≡ true)
unfolding guarded_open received capped len slice_to
guarded_open-pinned_example =
    guarded_open-pinned target "GET" [] none 3
      (record { status = 200; headers = []; body = slice_to 3 "hello" }) refl
