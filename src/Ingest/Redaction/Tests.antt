-- ===== src/Ingest/Redaction/Tests.antt =====
-- Examples of the theorem about the filter.
use gridlens.Prelude.{refl, String, [], ◌∷◌, All}
use gridlens.Ingest.Client.{has_prefix, contains}
use gridlens.Ingest.Redaction.{secrets_of, filter}
use gridlens.Ingest.Redaction.Clean.{IsPlain, IsFree, filter-IsFree}

abbrev token : String
token = "9b2f-71"

token-IsPlain : IsPlain token
unfolding contains has_prefix
token-IsPlain = (refl, refl, refl)

filter-IsFree_example :
    All
      (IsFree (filter (secrets_of (token ∷ [])) "GET /api?securityToken=9b2f-71 answered 503"))
      (secrets_of (token ∷ []))
filter-IsFree_example =
    filter-IsFree (token ∷ []) "GET /api?securityToken=9b2f-71 answered 503" (token-IsPlain, tt)
