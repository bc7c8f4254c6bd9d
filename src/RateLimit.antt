-- ===== src/RateLimit.antt =====
-- src/gridlens/ingest/ratelimit.py: the token bucket. A float is modelled exactly: the rate is
-- `rate / scale` tokens for one tick of the clock, the balance counts in units of `1 / scale`
-- token, and a wait of w ticks is the number `w * rate` of units that it refills. The lock makes
-- one call of `acquire` one step.
mod Tests
pub mod Pacing
use gridlens.Prelude.{
  ℕ, zero, suc, ◌+◌, ◌*◌, Bool, List, [], ◌∷◌, Result, ok, ◌>>=◌, ◌>>◌, raise_if, ltb,
  if◌then◌else◌,
}
use gridlens.Prelude.Int.{ℤ, pos, negsuc, pos_part, sub_ℕ, ◌+ℤ◌, ◌-ℤ◌, leb_ℤ}
use gridlens.Exceptions.{Exception, value_error}

pub record TokenBucket : Type 0 where
  pub rate : ℕ
  pub scale : ℕ
  pub burst : ℕ
  pub tokens : ℤ
  pub updated : ℕ

-- `TokenBucket.__init__`, at the clock reading `clock`
unfoldable pub init : ℤ → ℕ → ℕ → ℕ → Result Exception TokenBucket
init rate scale burst clock = do
  raise_if (leb_ℤ rate (pos 0)) (value_error "rate_per_second must be positive")
  raise_if (ltb burst 1) (value_error "burst must be at least 1")
  ok (record {
    rate = pos_part rate;
    scale = scale;
    burst = burst;
    tokens = pos (burst * scale);
    updated = clock;
  })

abbrev pub min_ℤ : ℤ → ℤ → ℤ
min_ℤ a b = if leb_ℤ a b then a else b

-- The balance at the clock reading `now`.
unfoldable pub refill : TokenBucket → ℕ → ℤ
refill b now =
    min_ℤ (pos (b.burst * b.scale)) (b.tokens +ℤ sub_ℕ (now * b.rate) (b.updated * b.rate))

-- `acquire`: the bucket afterwards, and the wait in refilled units.
unfoldable pub acquire : TokenBucket → ℕ → TokenBucket × ℕ
acquire b now = (
  record b { tokens = refill b now -ℤ pos b.scale; updated = now },
  pos_part (pos b.scale -ℤ refill b now),
)

-- The bucket after calls at the clock readings of a list.
pub acquire_all : TokenBucket → List ℕ → TokenBucket
acquire_all b [] = b
acquire_all b (now ∷ rest) = acquire_all (acquire b now).0 rest
