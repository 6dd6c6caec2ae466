-- ===== src/Outbound/Guard.antt =====
-- `validate_outbound_url`
use private_ai_workspace_eks.Prelude.{
  ◌≡◌, refl, ◌⊎◌, inl, inr, ℕ, suc, String, ◌<>◌, Bool, true, false, Option, none, some, List, [],
  ◌∷◌, ◌||◌, map, contains, not, string_eq, if◌then◌else◌, ◌==◌,
}
use private_ai_workspace_eks.Prelude.Text.{is_empty}
use private_ai_workspace_eks.Json.{Python}
use private_ai_workspace_eks.Outbound.{
  Reason, scheme, credentials, host_not_allowed, dns, private_ip, malformed, ValidatedTarget,
  SplitUrl, Network, classify_ip,
}

-- A value, or the reason of an `OutboundReject`.
pub data Checked {ℓ} (A : Type ℓ) : Type ℓ where
  accept : A → Checked A
  reject : Reason → Checked A

pub Checked-cases {ℓ} :
    {A : Type ℓ} (m : Checked A) → ((r : Reason) × (m ≡ reject r)) ⊎ ((a : A) × (m ≡ accept a))
Checked-cases (reject r) = inl (r, refl)
Checked-cases (accept a) = inr (a, refl)

infixl 5 ◌>>=◌ ◌>>◌
abbrev pub ◌>>=◌ {ℓ κ} : {A : Type ℓ} {B : Type κ} → Checked A → (A → Checked B) → Checked B
accept a >>= f = f a
reject r >>= f = reject r

abbrev pub ◌>>◌ {ℓ} : {B : Type ℓ} → Checked (Unit {0}) → Checked B → Checked B
m >> k = m >>= λ _. k

abbrev check : Bool → Reason → Checked (Unit {0})
check true r = accept tt
check false r = reject r

abbrev known {ℓ} : {A : Type ℓ} → Option A → Reason → Checked A
known none r = reject r
known (some a) r = accept a

-- `if parts.username or parts.password`
abbrev pub is_given : Option String → Bool
is_given none = false
is_given (some s) = not (is_empty s)

abbrev pub default_port : String → ℕ
default_port s = if s == "https" then 443 else 80

-- `parts.port or _DEFAULT_PORTS[scheme]`
abbrev pub chosen_port : Option ℕ → String → ℕ
chosen_port (some (suc n)) s = suc n
chosen_port _ s = default_port s

abbrev pub is_scheme_allowed : Bool → String → Bool
is_scheme_allowed allow_http s = s == "https" || (if allow_http then s == "http" else false)

-- `if not host`
abbrev nonempty_host : Option String → Option String
nonempty_host none = none
nonempty_host (some h) = if is_empty h then none else some h

module _ ⦃py : Python⦄ ⦃net : Network⦄ where
  -- Whether one address is waived or safe; the loop stops at the first that is neither.
  unfoldable pub judge_ip : Bool → String → Option Reason
  judge_ip permitted raw_ip = elim (classify_ip raw_ip) [
    | none ↦ none
    | some private_ip ↦ if permitted then none else some private_ip
    | some r ↦ some r
  ]

  unfoldable pub check_all : Bool → List String → Checked (Unit {0})
  unfolding judge_ip
  check_all permitted [] = accept tt
  check_all permitted (ip ∷ ips) =
      let rest = check_all permitted ips in
      elim (judge_ip permitted ip) [ none ↦ rest | some r ↦ reject r ]

  abbrev pub first_of_all : List String → Checked String
  first_of_all [] = reject dns
  first_of_all (ip ∷ ips) = accept ip

  abbrev pub request_path : SplitUrl → String
  request_path u =
      let path = if is_empty u.url_path then "/" else u.url_path in
      if is_empty u.query then path else path <> "?" <> u.query

  unfoldable pub validate_outbound_url :
      String → List String → Bool → List String → Checked ValidatedTarget
  validate_outbound_url url allowed_hosts allow_http permit_hosts = do
    u ← known (net.urlsplit url) malformed
    let s = py.lower u.url_scheme
    check (is_scheme_allowed allow_http s) scheme
    check (not (is_given u.username || is_given u.password)) credentials
    given ← known (nonempty_host u.hostname) malformed
    let host = py.lower given
    check (contains (map py.lower allowed_hosts) host) host_not_allowed
    port ← known u.url_port malformed
    resolved ← known (net.getaddrinfo host (chosen_port port s)) dns
    pinned ← first_of_all resolved
    check_all (contains (map py.lower permit_hosts) host) resolved
    accept (record {
      target_scheme = s;
      host = host;
      ip = pinned;
      port = chosen_port port s;
      path = request_path u;
    })
