-- ===== src/Ingest/Rte/Tests.antt =====
-- Runs of the RTE client against a network that counts requests and answers each with 401.
use gridlens.Prelude.{ℕ, ◌+◌, ◌≡◌, ◌≤◌, ◌<◌, ◌⊎◌, refl, [], none, some, ok, err, arith}
use gridlens.Exceptions.{rte_auth_error}
use gridlens.Ingest.Client.{Response, answered}
use gridlens.Ingest.Rte.{
  RteClient, Session, TokenResponse, Network, bearer, token_in_use, take_token, get_bearer, request,
  rte_fetch,
}
use gridlens.Ingest.Rte.Attempts.{Counted, rte_fetch_bounded}
use gridlens.Ingest.Rte.Token.{Renewed, rte_fetch_rejected, get_bearer_fresh}

abbrev unauthorized : Response
unauthorized = record { status_code = 401; content = []; retry_after = none }

abbrev granted : TokenResponse
granted = record {
  status_code = 200;
  json = ok (record { access_token = some "t"; expires_in = none });
}

-- gets and posts
abbrev refusing : Network (ℕ × ℕ)
refusing = record {
  acquire = λ w. w;
  get = λ path params t w. (answered unauthorized, (w.0 + 1, w.1));
  post = λ basic w. (some granted, (w.0, w.1 + 1));
  now = λ w. (1000, w);
  sleep = λ t w. w;
  uniform = λ top w. (top, w);
  read_float = λ s. none;
  isoformat = λ t. "";
}

abbrev refusing-Counted : Counted refusing
refusing-Counted = record {
  gets = λ w. w.0;
  posts = λ w. w.1;
  get_adds = λ path params t w. (refl, refl);
  post_adds = λ basic w. (refl, refl);
  acquire_keeps = λ w. (refl, refl);
  now_keeps = λ w. (refl, refl);
  sleep_keeps = λ t w. (refl, refl);
  uniform_keeps = λ t w. (refl, refl);
}

abbrev client : RteClient
client = record { basic = "b"; max_attempts = 4; backoff_base = 500000; backoff_cap = 8000000 }

abbrev fresh : Session
fresh = record { token = none; expires_at = 0; token_fetches = 0 }

abbrev nowhere : ℕ × ℕ
nowhere = (0, 0)

rte_fetch_bounded_example :
    ((rte_fetch refusing client "/p" [] fresh nowhere).2.0 ≤ 4)
    × ((rte_fetch refusing client "/p" [] fresh nowhere).2.1 ≤ 4)
rte_fetch_bounded_example = rte_fetch_bounded refusing client refusing-Counted "/p" [] fresh nowhere

abbrev held_until : ℕ → Session
held_until n = record { token = some "t"; expires_at = 3540001000; token_fetches = n }

first_request :
    request refusing client "/p" [] fresh nowhere ≡ (ok (some unauthorized), held_until 1, (1, 1))
unfolding request get_bearer token_in_use take_token
first_request = refl

second_request :
    request refusing client "/p" [] (record (held_until 1) { token = none }) (1, 1)
    ≡ (ok (some unauthorized), held_until 2, (2, 2))
unfolding request get_bearer token_in_use take_token
second_request = refl

rte_fetch_rejected_example :
    rte_fetch refusing client "/p" [] fresh nowhere
    ≡ (err (rte_auth_error "credentials rejected"), held_until 2, (2, 2))
rte_fetch_rejected_example =
    rte_fetch_rejected refusing client "/p" [] fresh (held_until 1) (held_until 2) nowhere (1, 1)
      (2, 2) unauthorized unauthorized (omega arith) first_request refl second_request refl

renewed : get_bearer refusing client fresh nowhere ≡ (bearer "t", held_until 1, (0, 1))
unfolding get_bearer token_in_use take_token
renewed = refl

get_bearer_fresh_example :
    ((held_until 1 ≡ fresh)
      × (fresh.token ≡ some "t")
      × ((refusing.now nowhere).0 < fresh.expires_at))
    ⊎ Renewed refusing client fresh (held_until 1) nowhere "t"
unfolding token_in_use
get_bearer_fresh_example =
    get_bearer_fresh refusing client fresh (held_until 1) nowhere (0, 1) "t" renewed
