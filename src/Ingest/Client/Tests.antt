-- ===== src/Ingest/Client/Tests.antt =====
-- Runs of the retry loop.
use gridlens.Prelude.{◌≤◌, ◌<◌, ℕ, zero, suc, ◌+◌, ◌≡◌, refl, none, [], ok, err, length, arith}
use gridlens.Exceptions.{rate_limited, entsoe_unavailable}
use gridlens.Ingest.Client.{
  Response, Reply, transport_error, answered, Client, Environment, retry_after, settle, fetch,
}
use gridlens.Ingest.Client.Retries.{Unavailable, fetch-settles, fetch-exhausted}

abbrev client : Client
client = record {
  token = "secret";
  max_attempts = 3;
  backoff_base = 1000000;
  backoff_cap = 60000000;
}

abbrev too_many : Response
too_many = record { status_code = 429; content = []; retry_after = none }

-- A server error, then a rate limit without a header.
abbrev busy_then_limited : ℕ → Reply
busy_then_limited zero = transport_error
busy_then_limited (suc zero) =
    answered (record { status_code = 503; content = []; retry_after = none })
busy_then_limited (suc (suc n)) = answered too_many

abbrev limited : Environment
limited = record {
  replies = busy_then_limited;
  clock = λ n. n;
  uniform = λ n top. top;
  reason = λ body. ok ("", "");
  read_float = λ s. none;
}

early_replies : (m : ℕ) → 1 ≤ m → m < 2 → Unavailable (busy_then_limited m)
early_replies zero a b = tt
early_replies (suc zero) a b = omega arith
early_replies (suc (suc m)) a b = absurd (omega (arith, b))

fetch-settles_example :
    ((fetch limited client).result ≡ err (rate_limited (retry_after limited too_many)))
    × ((fetch limited client).requests ≡ 2)
    × (length (fetch limited client).waits + 1 ≡ 2)
fetch-settles_example =
    fetch-settles limited client 2 too_many (omega arith) (omega arith) early_replies refl
      (omega arith)

abbrev unreachable : Environment
unreachable = record limited { replies = λ n. transport_error }

fetch-exhausted_example :
    ((fetch unreachable client).result ≡ err entsoe_unavailable)
    × ((fetch unreachable client).requests ≡ 3)
    × (length (fetch unreachable client).waits + 1 ≡ 3)
fetch-exhausted_example =
    fetch-exhausted unreachable client (omega arith) (λ m a b. unfold settle in refl)
