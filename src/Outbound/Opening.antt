-- ===== src/Outbound/Opening.antt =====
-- `guarded_open`: a request over a connection to the pinned address.
use mathlib.Core.Path.{◌∙◌}
use private_ai_workspace_eks.Prelude.{
  ℕ, zero, suc, ◌≡◌, Bool-cases, inl, inr, String, refl, Bool, true, Option, List, [], ◌∷◌,
  string_eq, ◌==◌, leb, ltb, arith,
}
use private_ai_workspace_eks.Prelude.Text.{len, slice_to, len-slice_to}
use private_ai_workspace_eks.Prelude.Dict
use private_ai_workspace_eks.Prelude.Dict.{Dict}
use private_ai_workspace_eks.Json.{Python}
use private_ai_workspace_eks.Outbound.{ValidatedTarget, OutboundResponse, capped}

-- Where a connection goes: the address and port of its socket, and the name it presents to the
-- server and, over TLS, checks the certificate against.
pub record Connection : Type 0 where
  pub tls : Bool
  pub pinned_ip : String
  pub pinned_port : ℕ
  pub presented_host : String

pub record Request : Type 0 where
  pub method : String
  pub request_line : String
  pub request_headers : Dict String String
  pub request_body : Option String

pub record Received : Type 0 where
  pub received_status : ℕ
  pub received_headers : List (String × String)
  pub received_body : String

-- Opening a socket and exchanging a request for a response over it may fail with a timeout or
-- another `OSError`. An `HTTPException`, for an answer that is no HTTP, is not modelled.
pub data Exchange : Type 0 where
  answered : Received → Exchange
  timed_out os_error : Exchange

pub data Opened : Type 0 where
  opened : OutboundResponse → Opened
  open_timeout open_error : Opened

-- `_PinnedHTTPSConnection` and `_PinnedHTTPConnection`
unfoldable pub connection : ValidatedTarget → Connection
connection t = record {
  tls = t.target_scheme == "https";
  pinned_ip = t.ip;
  pinned_port = t.port;
  presented_host = t.host;
}

unfoldable pub open_request :
    ValidatedTarget → String → Dict String String → Option String → Request
open_request t m headers b = record {
  method = m;
  request_line = t.path;
  request_headers = headers;
  request_body = b;
}

-- The dict comprehension over `getheaders()`: of the headers with one name, the last one counts.
abbrev lowered_onto :
    ⦃py : Python⦄ → Dict String String → List (String × String) → Dict String String
lowered_onto d [] = d
lowered_onto ⦃py⦄ d ((k, v) ∷ l) = lowered_onto (Dict.insert (py.lower k) v d) l

unfoldable pub received : ⦃py : Python⦄ → ℕ → Exchange → Opened
received limit (answered r) = opened (record {
  status = r.received_status;
  headers = lowered_onto [] r.received_headers;
  body = capped limit r.received_body;
})
received limit timed_out = open_timeout
received limit os_error = open_error

-- The socket's side: the exchange it makes for a request over a connection.
pub record Wire : Type 0 where
  pub exchange : Connection → Request → Exchange

unfoldable pub guarded_open :
    ⦃py : Python⦄
    → ⦃wire : Wire⦄ → ValidatedTarget
    → String
    → Dict String String
    → Option String
    → ℕ
    → Opened
guarded_open ⦃py⦄ ⦃wire⦄ t m headers b limit =
    received limit (wire.exchange (connection t) (open_request t m headers b))

len-capped : (limit : ℕ) (sent : String) → leb (len (capped limit sent)) limit ≡ true
unfolding capped
len-capped limit sent = let cut = len-slice_to limit (slice_to (suc limit) sent) in ground arith

slice_to-whole : (n : ℕ) (s : String) → leb (len s) n ≡ true → slice_to n s ≡ s
unfolding len slice_to
slice_to-whole zero String.[] h = refl
slice_to-whole zero (String.◌∷◌ c s) h = ground arith
slice_to-whole (suc n) String.[] h = refl
slice_to-whole (suc n) (String.◌∷◌ c s) h = let rest = slice_to-whole n s (ground arith) in cc

slice_to-twice :
    (n : ℕ) (s : String) → ltb n (len s) ≡ true → slice_to n (slice_to (suc n) s) ≡ slice_to n s
unfolding len slice_to
slice_to-twice zero s h = refl
slice_to-twice (suc n) String.[] h = refl
slice_to-twice (suc n) (String.◌∷◌ c s) h = let rest = slice_to-twice n s (ground arith) in cc

len-slice_to-full : (n : ℕ) (s : String) → ltb n (len s) ≡ true → len (slice_to (suc n) s) ≡ suc n
unfolding len slice_to
len-slice_to-full n String.[] h = ground arith
len-slice_to-full zero (String.◌∷◌ c s) h = refl
len-slice_to-full (suc n) (String.◌∷◌ c s) h = let rest = len-slice_to-full n s (ground arith) in cc

-- Reading one byte more than the limit and cutting leaves the first bytes up to the limit.
capped_lem : (limit : ℕ) (sent : String) → capped limit sent ≡ slice_to limit sent
unfolding capped
capped_lem limit sent = elim (Bool-cases (ltb limit (len sent))) [
  | inl h ↦
      let full = len-slice_to-full limit sent h in
      let cut = slice_to-twice limit sent h in ground arith
  | inr h ↦
      let short = slice_to-whole limit sent (ground arith) in
      let same = slice_to-whole (suc limit) sent (ground arith) in ground arith
]

received-answered :
    ⦃py : Python⦄ (limit : ℕ) (e : Exchange) (r : OutboundResponse)
    → received limit e ≡ opened r
    → (sent : Received) × (e ≡ answered sent) × (r.body ≡ capped limit sent.received_body)
unfolding received
received-answered limit (answered sent) r h = (sent, refl, cc)
received-answered limit timed_out r h = ground arith
received-answered limit os_error r h = ground arith

-- A response comes from one exchange, over a connection to the pinned address and port that presents
-- the target's host, is encrypted exactly for https, and keeps the body's first bytes up to the
-- limit.
pub guarded_open-pinned :
    ⦃py : Python⦄ ⦃wire : Wire⦄ (t : ValidatedTarget) (m : String) (headers : Dict String String)
    (b : Option String) (limit : ℕ) (r : OutboundResponse)
    → guarded_open t m headers b limit ≡ opened r
    → (c : Connection) × (sent : Received) × (wire.exchange c (open_request t m headers b)
        ≡ answered sent)
      × (c.pinned_ip ≡ t.ip)
      × (c.pinned_port ≡ t.port)
      × (c.presented_host ≡ t.host)
      × (c.tls ≡ (t.target_scheme == "https"))
      × (r.body ≡ slice_to limit sent.received_body)
      × (leb (len r.body) limit ≡ true)
unfolding guarded_open connection
guarded_open-pinned ⦃py⦄ ⦃wire⦄ t m headers b limit r h =
    let e = wire.exchange (connection t) (open_request t m headers b) in
    let found = received-answered limit e r h in
    let sent = found.0 in
    let cut = found.2 ∙ capped_lem limit sent.received_body in
    (
      connection t,
      sent,
      found.1,
      refl,
      refl,
      refl,
      refl,
      cut,
      rw (cut) (len-slice_to limit sent.received_body),
    )
