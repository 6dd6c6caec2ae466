-- ===== src/Outbound/Safety.antt =====
-- What the guard accepts is safe.
use private_ai_workspace_eks.Prelude.{
  String, ◌≡◌, ◌≢◌, ◌⊎◌, inl, inr, Bool, true, false, none, some, List, [], ◌∷◌, map, contains, All,
  arith, Option-cases, string_eq,
}
use mathlib.Core.Path.{ap, subst, ◌∙◌}
use private_ai_workspace_eks.Json.{Python}
use private_ai_workspace_eks.Outbound.{
  metadata, private_ip, ValidatedTarget, SplitUrl, Network, classify_ip, classify_address,
  metadata_ips, Address, v6,
}
use private_ai_workspace_eks.Outbound.Guard.{
  accept, is_given, is_scheme_allowed, judge_ip, check_all, first_of_all, validate_outbound_url,
}

module _ ⦃py : Python⦄ ⦃net : Network⦄ where
  -- An address that may be reached: it has no reason against it, or it is private and the host is
  -- permitted.
  abbrev pub IsReachable : Bool → String → Type 0
  IsReachable permitted ip =
      (classify_ip ip ≡ none) ⊎ ((classify_ip ip ≡ some private_ip) × (permitted ≡ true))

  judge_ip-none :
      (permitted : Bool) (ip : String) → judge_ip permitted ip ≡ none → IsReachable permitted ip
  unfolding judge_ip
  judge_ip-none permitted ip h = ground arith

  check_all-All :
      (permitted : Bool) (ips : List String)
      → check_all permitted ips ≡ accept tt
      → All (IsReachable permitted) ips
  unfolding check_all
  check_all-All permitted [] h = tt
  check_all-All permitted (ip ∷ ips) h =
      let m = judge_ip permitted ip in
      let safe = judge_ip-none permitted ip in
      let rest = check_all-All permitted ips in ground arith

  judge_ip-permits :
      (permitted : Bool) (ip : String) → IsReachable permitted ip → judge_ip permitted ip ≡ none
  unfolding judge_ip
  judge_ip-permits permitted ip h = ground arith

  -- What the checks of the URL itself leave.
  abbrev pub IsAllowedUrl : String → List String → Bool → ValidatedTarget → Type 0
  IsAllowedUrl url allowed_hosts allow_http t =
      (u : SplitUrl) × (net.urlsplit url ≡ some u)
      × (is_given u.username ≡ false)
      × (is_given u.password ≡ false)
      × (is_scheme_allowed allow_http t.target_scheme ≡ true)
      × (contains (map py.lower allowed_hosts) t.host ≡ true)

  abbrev pub IsPinned : List String → ValidatedTarget → Type 0
  IsPinned permit_hosts t =
      (others : List String) × (net.getaddrinfo t.host t.port ≡ some (t.ip ∷ others))
      × All (IsReachable (contains (map py.lower permit_hosts) t.host)) (t.ip ∷ others)

  validate_outbound_url-IsAllowedUrl :
      (url : String) (allowed_hosts : List String) (allow_http : Bool) (permit_hosts : List String)
      (t : ValidatedTarget)
      → validate_outbound_url url allowed_hosts allow_http permit_hosts ≡ accept t
      → IsAllowedUrl url allowed_hosts allow_http t
  unfolding validate_outbound_url
  validate_outbound_url-IsAllowedUrl url allowed_hosts allow_http permit_hosts t h = ground arith

  pinned_lem :
      (permitted : Bool) (ips : List String) (ip : String)
      → first_of_all ips ≡ accept ip
      → check_all permitted ips ≡ accept tt
      → (others : List String) × (ips ≡ ip ∷ others) × All (IsReachable permitted) (ip ∷ others)
  pinned_lem permitted [] ip h e = ground arith
  pinned_lem permitted (x ∷ others) ip h e =
      let same : x ≡ ip = cc in
      let all = check_all-All permitted (x ∷ others) e in
      (others, cc, subst (λ i. All (IsReachable permitted) (i ∷ others)) same all)

  validate_outbound_url-IsPinned :
      (url : String) (allowed_hosts : List String) (allow_http : Bool) (permit_hosts : List String)
      (t : ValidatedTarget)
      → validate_outbound_url url allowed_hosts allow_http permit_hosts ≡ accept t
      → IsPinned permit_hosts t
  unfolding validate_outbound_url
  validate_outbound_url-IsPinned url allowed_hosts allow_http permit_hosts t h =
      let permitted = contains (map py.lower permit_hosts) t.host in
      elim (Option-cases (net.getaddrinfo t.host t.port)) [
        | inl e ↦ ground arith
        | inr (ips, e) ↦
            let found : first_of_all ips ≡ accept t.ip = ground arith in
            let safe : check_all permitted ips ≡ accept tt = ground arith in
            let pinned = pinned_lem permitted ips t.ip found safe in
            (pinned.0, e ∙ ap some pinned.1, pinned.2)
      ]

  -- A target is accepted only for an allowed scheme and host, with no credentials in the URL, every
  -- address the host resolves to reachable, and the first of them pinned.
  pub validate_outbound_url_sound :
      (url : String) (allowed_hosts : List String) (allow_http : Bool) (permit_hosts : List String)
      (t : ValidatedTarget)
      → validate_outbound_url url allowed_hosts allow_http permit_hosts ≡ accept t
      → IsAllowedUrl url allowed_hosts allow_http t × IsPinned permit_hosts t
  validate_outbound_url_sound url allowed_hosts allow_http permit_hosts t h =
      let url_allowed =
        validate_outbound_url-IsAllowedUrl url allowed_hosts allow_http permit_hosts t h in
      (url_allowed, validate_outbound_url-IsPinned url allowed_hosts allow_http permit_hosts t h)

  All-contains :
      (permitted : Bool) (ips : List String) (ip : String)
      → All (IsReachable permitted) ips
      → contains ips ip ≡ true
      → IsReachable permitted ip
  All-contains permitted [] ip safe h = ground arith
  All-contains permitted (x ∷ ips) ip safe h =
      let rest = All-contains permitted ips ip (safe.1) in ground arith

  -- A cloud metadata address, written as it is or mapped into IPv6.
  abbrev pub IsMetadata : String → Type 0
  IsMetadata ip =
      (contains metadata_ips ip ≡ true)
      ⊎ ((a : Address) × (mapped : Address) × (net.ip_address ip ≡ some (v6 a (some mapped)))
          × (contains metadata_ips mapped.shown ≡ true))

  classify_ip-metadata : (ip : String) → IsMetadata ip → classify_ip ip ≡ some metadata
  unfolding classify_ip classify_address
  classify_ip-metadata ip h = ground arith

  -- Whatever hosts are permitted, nothing is accepted for a host with a metadata address, written as
  -- it is or mapped into IPv6, among those that it resolves to.
  pub validate_outbound_url-metadata :
      (url : String) (allowed_hosts : List String) (allow_http : Bool) (permit_hosts : List String)
      (t : ValidatedTarget) (ips : List String) (ip : String)
      → net.getaddrinfo t.host t.port ≡ some ips
      → contains ips ip ≡ true
      → IsMetadata ip
      → validate_outbound_url url allowed_hosts allow_http permit_hosts ≢ accept t
  validate_outbound_url-metadata url allowed_hosts allow_http permit_hosts t ips ip e found bad h =
      let permitted = contains (map py.lower permit_hosts) t.host in
      let pinned = validate_outbound_url-IsPinned url allowed_hosts allow_http permit_hosts t h in
      let same : ips ≡ t.ip ∷ pinned.0 = cc in
      let reach =
        All-contains permitted (t.ip ∷ pinned.0) ip pinned.2
          (subst (λ l. contains l ip ≡ true) same found) in
      let judged = classify_ip-metadata ip bad in ground arith
