-- ===== src/Ingest/Client.antt =====
-- src/gridlens/ingest/entsoe.py: the retry loop of the ENTSO-E client and how it reads an answer.
-- Durations are microseconds. What the network answers to each attempt, the jitter, `float` and what
-- parsing an acknowledgement and searching it for its reason (`_reason`, in Reason) gives or raises
-- are parameters.
mod Tests
pub mod Reason
pub mod Retries
pub mod Request
use gridlens.Prelude.{
  ℕ, zero, suc, ◌+◌, ◌-◌, ◌*◌, ◌^◌, String, Bool, true, false, not, ◌&&◌, ◌||◌, Option, none, some,
  List, [], ◌∷◌, ◌++◌, Result, ok, err, ◌>>=◌, ◌>>◌, raise_if, min, ltb, leb, ◌==◌, str_eq,
  if◌then◌else◌,
}
use text.Mathlib.Text.{starts_with}
use gridlens.Exceptions.{
  Exception, value_error, rate_limited, entsoe_no_data, entsoe_auth_error, entsoe_rejected,
  entsoe_unavailable,
}
use gridlens.Timeaxis.Duration.{codes}

abbrev pub rate_limit_cooldown : ℕ
rate_limit_cooldown = 600000000

pub record Response : Type 0 where
  pub status_code : ℕ
  pub content : List ℕ
  pub retry_after : Option String

-- What an attempt gets: `httpx.TransportError`, or a response.
pub data Reply : Type 0 where
  transport_error : Reply
  answered : Response → Reply

pub record FetchResult : Type 0 where
  pub body : List ℕ
  pub fetched_at : ℕ
  pub status_code : ℕ

-- `EntsoeClient`'s settings
pub record Client : Type 0 where
  pub token : String
  pub max_attempts : ℕ
  pub backoff_base : ℕ
  pub backoff_cap : ℕ

pub record Environment : Type 0 where
  pub replies : ℕ → Reply
  pub clock : ℕ → ℕ
  pub uniform : ℕ → ℕ → ℕ
  pub reason : List ℕ → Result Exception (String × String)
  pub read_float : String → Option ℕ

unfoldable pub new_client : String → ℕ → ℕ → ℕ → Result Exception Client
new_client token max_attempts base cap = do
  raise_if (str_eq token "") (value_error "token is required")
  raise_if (ltb max_attempts 1) (value_error "max_attempts must be at least 1")
  ok (record { token = token; max_attempts = max_attempts; backoff_base = base; backoff_cap = cap })

abbrev pub take : {A : Type 0} → ℕ → List A → List A
take zero xs = []
take (suc n) [] = []
take (suc n) (x ∷ xs) = x ∷ take n xs

unfoldable pub has_prefix : List ℕ → List ℕ → Bool
has_prefix [] s = true
has_prefix (c ∷ cs) [] = false
has_prefix (c ∷ cs) (d ∷ s) = c == d && has_prefix cs s

unfoldable pub contains : List ℕ → List ℕ → Bool
contains needle [] = has_prefix needle []
contains needle (c ∷ s) = has_prefix needle (c ∷ s) || contains needle s

-- `_is_acknowledgement`
unfoldable pub is_acknowledgement : List ℕ → Bool
unfolding contains has_prefix
is_acknowledgement body = contains (codes "Acknowledgement_MarketDocument") (take 500 body)

-- The result of `fetch`, the number of requests sent, and the waits between them.
pub record Trace : Type 0 where
  pub result : Result Exception FetchResult
  pub requests : ℕ
  pub waits : List ℕ

module _ (env : Environment) where
  -- `_retry_after`
  unfoldable pub retry_after : Response → ℕ
  retry_after r = elim r.retry_after [
    | none ↦ rate_limit_cooldown
    | some header ↦
        if str_eq header ""
        then rate_limit_cooldown
        else elim (env.read_float header) [ none ↦ rate_limit_cooldown | some t ↦ t ]
  ]

  -- `_interpret`, at an attempt
  unfoldable pub interpret : ℕ → Response → Result Exception FetchResult
  interpret attempt r =
      if is_acknowledgement r.content
      then elim (env.reason r.content) [
        | err e ↦ err e
        | ok (code, text) ↦
            if r.status_code == 401
            then err (entsoe_auth_error code text r.status_code)
            else if starts_with text "No matching data found"
            then err (entsoe_no_data code text r.status_code)
            else err (entsoe_rejected code text r.status_code)
      ]
      else if leb 400 r.status_code
      then err (entsoe_rejected "" "unexpected error body" r.status_code)
      else ok
          (record { body = r.content; fetched_at = env.clock attempt; status_code = r.status_code })

  -- `_backoff`: the ceiling, and the jittered wait
  unfoldable pub backoff_ceiling : Client → ℕ → ℕ
  backoff_ceiling c attempt = min c.backoff_cap (c.backoff_base * 2 ^ (attempt - 1))

  unfoldable pub backoff : Client → ℕ → ℕ
  unfolding backoff_ceiling
  backoff c attempt = env.uniform attempt (backoff_ceiling c attempt)

  -- A reply that the loop answers at once; `none` for one that it retries.
  unfoldable pub settle : ℕ → Reply → Option (Result Exception FetchResult)
  settle attempt transport_error = none
  settle attempt (answered r) =
      if r.status_code == 429
      then some (err (rate_limited (retry_after r)))
      else if ltb r.status_code 500
      then some (interpret attempt r)
      else none

  -- The rounds of the loop that are left, from an attempt on; `sent` requests have been sent.
  unfoldable pub attempts : Client → ℕ → ℕ → List ℕ → Trace
  attempts c zero attempt waits = record {
    result = err entsoe_unavailable;
    requests = attempt - 1;
    waits = waits;
  }
  attempts c (suc left) attempt waits =
      let pause = if ltb attempt c.max_attempts then waits ++ backoff c attempt ∷ [] else waits in
      let later = attempts c left (attempt + 1) pause in
      elim (settle attempt (env.replies attempt)) [
        | some r ↦ record { result = r; requests = attempt; waits = waits }
        | none ↦ later
      ]

  unfoldable pub fetch : Client → Trace
  fetch c = attempts c c.max_attempts 1 []
