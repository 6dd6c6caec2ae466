-- ===== src/Tests/Calls.antt =====
-- Tests of Integrations, on the network of the tests of URLs.
use private_ai_workspace_eks.Prelude.{
  false, String, false, none, some, [], ◌∷◌, All, pair_eq, string_eq,
}
use private_ai_workspace_eks.Json.{pos}
use private_ai_workspace_eks.Integrations.{
  OutboundRequest, TokenRefresh, TokenCache, ensure_access_token,
}
use private_ai_workspace_eks.Integrations.Egress.{IsGuarded, Obtains, ensure_access_token-IsGuarded}
use private_ai_workspace_eks.Tests.{python}
use private_ai_workspace_eks.Tests.Urls.{url, network, wire}

abbrev call : OutboundRequest
call = record { method = "GET"; url = url; headers = []; body = none; allow_http = false }

abbrev refresher : TokenRefresh
refresher = record {
  refresh_hosts = "api.example" ∷ [];
  token_key = "ACCESS_TOKEN";
  refresh_request = λ creds. call;
  parse_token = λ status body. (some body, pos 3600);
}

abbrev cache : TokenCache
cache = (("acme.com", "calendar"), ("old", 10)) ∷ []

ensure_access_token-IsGuarded_example :
    All
      (IsGuarded ("api.example" ∷ []) [] call)
      (ensure_access_token 20 ("acme.com", "calendar") [] (some refresher) cache).connected
    × Obtains 20
        ("acme.com", "calendar")
        []
        refresher
        cache
        (ensure_access_token 20 ("acme.com", "calendar") [] (some refresher) cache)
ensure_access_token-IsGuarded_example =
    ensure_access_token-IsGuarded 20 ("acme.com", "calendar") [] refresher cache

abbrev mail : String × String
mail = ("acme.com", "mail")

abbrev calendar : String × String
calendar = ("acme.com", "calendar")
