-- ===== src/Ingest/Rte.antt =====
-- src/gridlens/ingest/rte.py: the RTE client, its token and its retry loop. The outside is a state of
-- its own, and what the client asks of it (requests, clock, jitter, waits, the rate limit) are the
-- operations of `Network`. Durations are microseconds; a lifetime of the token is not negative.
mod Tests
pub mod Attempts
pub mod Token
use gridlens.Prelude.{
  ℕ, zero, suc, ◌+◌, ◌-◌, ◌*◌, ◌^◌, String, Bool, true, false, not, ◌||◌, Option, none, some, List,
  [], ◌∷◌, Result, ok, err, ◌>>=◌, ◌>>◌, raise_if, min, ltb, leb, ◌==◌, str_eq, if◌then◌else◌,
}
use gridlens.Exceptions.{
  Exception, value_error, key_error, rate_limited, rte_auth_error, rte_no_application,
  rte_unavailable, rte_error,
}
use gridlens.Timeaxis.{day_us, sub_offset}
use gridlens.Contracts.Records.{Moment, naive, aware}
use gridlens.Ingest.Client.{Response, Reply, transport_error, answered, FetchResult}

abbrev pub token_skew : ℕ
token_skew = 60000000

abbrev rte_cooldown : ℕ
rte_cooldown = 300000000

abbrev max_window : ℕ
max_window = 155 * day_us

-- `RteClient`'s settings, and what its calls change
pub record RteClient : Type 0 where
  pub basic : String
  pub max_attempts : ℕ
  pub backoff_base : ℕ
  pub backoff_cap : ℕ

pub record Session : Type 0 where
  pub token : Option String
  pub expires_at : ℕ
  pub token_fetches : ℕ

-- The payload of the token endpoint's answer; a field is read by `str` and `float`, which may raise.
pub record TokenPayload : Type 0 where
  pub access_token : Option String
  pub expires_in : Option (Result Exception ℕ)

-- What the token endpoint answers; `json` of its body may raise.
pub record TokenResponse : Type 0 where
  pub status_code : ℕ
  pub json : Result Exception TokenPayload

pub record Network (W : Type 0) : Type 0 where
  pub acquire : W → W
  pub get : String → List (String × String) → String → W → Reply × W
  pub post : String → W → Option TokenResponse × W
  pub now : W → ℕ × W
  pub sleep : ℕ → W → W
  pub uniform : ℕ → W → ℕ × W
  pub read_float : String → Option ℕ
  pub isoformat : ℕ → String

-- `__init__`; the encoding of the credentials is a parameter.
unfoldable pub new_rte_client :
    (String → String → String)
    → String
    → String
    → ℕ
    → ℕ
    → ℕ
    → Result Exception (RteClient × Session)
new_rte_client encode client_id client_secret max_attempts base cap = do
  raise_if (str_eq client_id "" || str_eq client_secret "")
      (value_error "client_id and client_secret are required")
  ok (
    record {
      basic = encode client_id client_secret;
      max_attempts = max_attempts;
      backoff_base = base;
      backoff_cap = cap;
    },
    record { token = none; expires_at = 0; token_fetches = 0 },
  )

-- How `_bearer` ends: a `TransportError` of its request, another exception, or the token.
pub data Bearer : Type 0 where
  unreached : Bearer
  raised : Exception → Bearer
  bearer : String → Bearer

-- What a response makes of the loop: the call's end, another try with a new token, or a retry.
pub data Step : Type 0 where
  ends : Result Exception FetchResult → Step
  refreshes retries : Step

-- `_retry_after` of rte.py
unfoldable pub rte_retry_after : (String → Option ℕ) → Response → ℕ
rte_retry_after read_float r = elim r.retry_after [
  | none ↦ rte_cooldown
  | some header ↦
      if str_eq header ""
      then rte_cooldown
      else elim (read_float header) [ none ↦ rte_cooldown | some t ↦ t ]
]

-- `float(payload.get("expires_in", 3600))`
abbrev pub lifetime : Option (Result Exception ℕ) → Result Exception ℕ
lifetime none = ok 3600000000
lifetime (some t) = t

module _ {W : Type 0} (net : Network W) (c : RteClient) where
  -- `self._token and self._now() < self._expires_at`
  unfoldable pub token_in_use : Session → W → Option String × W
  token_in_use s w = elim s.token [
    | none ↦ (none, w)
    | some t ↦
        let (now, w') = net.now w in
        if str_eq t "" then (none, w) else if ltb now s.expires_at then (some t, w') else (none, w')
  ]

  -- the part of `_bearer` behind the request
  unfoldable pub take_token : Session → Option TokenResponse → W → Bearer × Session × W
  take_token s none w = (unreached, s, w)
  take_token s (some r) w =
      if r.status_code == 400 || r.status_code == 401
      then (raised (rte_auth_error "credentials rejected by the token endpoint"), s, w)
      else if not (r.status_code == 200)
      then (raised (rte_unavailable "token endpoint"), s, w)
      else elim r.json [
        | err e ↦ (raised e, s, w)
        | ok payload ↦ elim payload.access_token [
          | none ↦ (raised (key_error "access_token"), s, w)
          | some t ↦ elim (lifetime payload.expires_in) [
            | err e ↦ (raised e, record s { token = some t }, w)
            | ok seconds ↦
                let (now, w') = net.now w in
                (
                  bearer t,
                  record {
                    token = some t;
                    expires_at = now + (seconds - token_skew);
                    token_fetches = s.token_fetches + 1;
                  },
                  w',
                )
          ]
        ]
      ]

  -- `_bearer`
  unfoldable pub get_bearer : Session → W → Bearer × Session × W
  get_bearer s w =
      let (held, w') = token_in_use s w in
      elim held [
        | some t ↦ (bearer t, s, w')
        | none ↦ let (answer, w'') = net.post c.basic w' in take_token s answer w''
      ]

  -- the wait after an attempt, `_backoff`
  unfoldable pub pause : ℕ → W → W
  pause attempt w =
      let (wait, w') = net.uniform (min c.backoff_cap (c.backoff_base * 2 ^ (attempt - 1))) w in
      if ltb attempt c.max_attempts then net.sleep wait w' else w

  unfoldable pub judge : Bool → ℕ → Response → Step
  judge refreshed now r =
      if r.status_code == 401
      then (if refreshed then ends (err (rte_auth_error "credentials rejected")) else refreshes)
      else if r.status_code == 403
      then ends (err (rte_no_application "no application subscribed"))
      else if r.status_code == 429
      then ends (err (rate_limited (rte_retry_after net.read_float r)))
      else if ltb r.status_code 500
      then (if leb 400 r.status_code
          then ends (err (rte_error r.status_code))
          else ends
              (ok (record { body = r.content; fetched_at = now; status_code = r.status_code })))
      else retries

  -- One attempt up to its response; `none` for a `TransportError`.
  unfoldable pub request :
      String
      → List (String × String)
      → Session
      → W
      → Result Exception (Option Response) × Session × W
  request path params s w =
      let (got, s', w') = get_bearer s (net.acquire w) in
      elim got [
        | unreached ↦ (ok none, s', w')
        | raised e ↦ (err e, s', w')
        | bearer t ↦
            let (reply, w'') = net.get path params t w' in
            elim reply [
              | transport_error ↦ (ok none, s', w'')
              | answered r ↦ (ok (some r), s', w'')
            ]
      ]

  -- The rounds of `fetch` that are left.
  unfoldable pub rte_attempts :
      String
      → List (String × String)
      → ℕ
      → ℕ
      → Bool
      → Session
      → W
      → Result Exception FetchResult × Session × W
  rte_attempts path params zero attempt refreshed s w = (err (rte_unavailable "giving up"), s, w)
  rte_attempts path params (suc left) attempt refreshed s w =
      let (got, s', w') = request path params s w in
      elim got [
        | err e ↦ (err e, s', w')
        | ok none ↦ rte_attempts path params left (attempt + 1) refreshed s' (pause attempt w')
        | ok (some r) ↦ elim (judge refreshed (net.now w').0 r) [
          | ends (ok body) ↦ (ok body, s', (net.now w').1)
          | ends (err e) ↦ (err e, s', w')
          | refreshes ↦
              rte_attempts path params left (attempt + 1) true (record s' { token = none }) w'
          | retries ↦ rte_attempts path params left (attempt + 1) refreshed s' (pause attempt w')
        ]
      ]

  unfoldable pub rte_fetch :
      String → List (String × String) → Session → W → Result Exception FetchResult × Session × W
  rte_fetch path params s w = rte_attempts path params c.max_attempts 1 false s w

  abbrev pub aware_instant : String → Moment → Result Exception ℕ
  aware_instant message (naive reading) = err (value_error message)
  aware_instant message (aware reading offset) = ok (sub_offset reading offset)

  unfoldable pub check_window : Moment → Moment → Result Exception (ℕ × ℕ)
  check_window start end = do
    from ← aware_instant "start is naive" start
    until ← aware_instant "end is naive" end
    raise_if (leb until from) (value_error "end must be after start")
    raise_if (ltb max_window (until - from)) (value_error "window is longer than the 155 day limit")
    ok (from, until)

  -- `actual_generation_per_type`
  unfoldable pub rte_generation :
      Moment → Moment → Session → W → Result Exception FetchResult × Session × W
  rte_generation start end s w = elim (check_window start end) [
    | err e ↦ (err e, s, w)
    | ok (from, until) ↦
        rte_fetch "/actual_generation/v1/actual_generations_per_production_type"
          (("start_date", net.isoformat from) ∷ ("end_date", net.isoformat until) ∷ []) s w
  ]
