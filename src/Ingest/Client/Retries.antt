-- ===== src/Ingest/Client/Retries.antt =====
-- Which attempts `fetch` makes.
use gridlens.Prelude.{
  ap, ◌∙◌, ◌==◌, some, ℕ, zero, suc, ◌+◌, ◌≤◌, ◌<◌, ◌≡◌, refl, ◌⊎◌, inl, inr, true, false, none,
  some, List, [], ◌∷◌, ◌++◌, Result, err, length, length-append, ltb, arith, if◌then◌else◌,
}
use gridlens.Exceptions.{Exception, rate_limited, entsoe_unavailable}
use gridlens.Ingest.Client.{
  Client, Environment, FetchResult, Response, Reply, transport_error, answered, retry_after,
  interpret, settle, backoff, attempts, fetch,
}

module _ (env : Environment) (c : Client) where
  -- From attempt `first` on, the n-th attempt is the first that is not retried.
  pub record SettlesAt (first n : ℕ) (r : Result Exception FetchResult) : Type 0 where
    pub after : first ≤ n
    pub settled : settle env n (env.replies n) ≡ some r
    pub retried : (m : ℕ) → first ≤ m → m < n → settle env m (env.replies m) ≡ none

  attempts-settles :
      (left first n : ℕ) (waits : List ℕ) (r : Result Exception FetchResult)
      → SettlesAt first n r
      → n < first + left
      → first + left ≡ c.max_attempts + 1
      → let t = attempts env c left first waits in
        (t.result ≡ r) × (t.requests ≡ n) × (length t.waits + first ≡ length waits + n)
  unfolding attempts
  attempts-settles zero first n waits r s h e = absurd (omega (arith, s.after))
  attempts-settles (suc left) first n waits r s h e =
      let d : (first ≡ n) ⊎ (first < n) = omega (arith, s.after) in
      elim d [
        | inl here ↦
            let now : settle env first (env.replies first) ≡ some r = rw here s.settled in
            rw (now, attempts) (refl, here, omega arith)
        | inr on ↦
            let next : suc first ≡ first + 1 = omega arith in
            let early : ltb first c.max_attempts ≡ true = ground arith in
            let w : List ℕ = waits ++ backoff env c first ∷ [] in
            let ih =
              attempts-settles left (first + 1) n w r
                (record {
                  after = omega arith;
                  settled = s.settled;
                  retried = λ m a b. s.retried m (omega arith) b;
                })
                (omega arith) (omega arith) in
            rw (s.retried first (omega arith) on, early, attempts)
              (ih.0, ih.1, omega (arith, ih.2, length-append {0} waits (backoff env c first ∷ [])))
      ]

  -- A retried attempt goes on to the next, after a wait unless it was the last.
  attempts_retry :
      (left first : ℕ) (waits : List ℕ)
      → settle env first (env.replies first) ≡ none
      → attempts env c (suc left) first waits
        ≡ attempts env c left
            (first + 1)
            (if ltb first c.max_attempts then waits ++ backoff env c first ∷ [] else waits)
  unfolding attempts
  attempts_retry left first waits q = rw (q, attempts) refl

  attempts-exhausted :
      (left first : ℕ) (waits : List ℕ)
      → ((m : ℕ) → first ≤ m → m < first + left → settle env m (env.replies m) ≡ none)
      → first + left ≡ c.max_attempts + 1
      → 1 ≤ left
      → let t = attempts env c left first waits in
        (t.result ≡ err entsoe_unavailable)
        × (t.requests ≡ c.max_attempts)
        × (length t.waits + first ≡ length waits + c.max_attempts)
  attempts-exhausted zero first waits q e p = absurd (omega arith)
  attempts-exhausted (suc zero) first waits q e p =
      let last : ltb first c.max_attempts ≡ false = ground arith in
      rw (attempts_retry zero first waits (q first (omega arith) (omega arith)), last)
        (unfold attempts in (refl, omega arith, omega arith))
  attempts-exhausted (suc (suc left)) first waits q e p =
      let early : ltb first c.max_attempts ≡ true = ground arith in
      let w : List ℕ = waits ++ backoff env c first ∷ [] in
      let ih =
        attempts-exhausted (suc left) (first + 1) w (λ m a b. q m (omega arith) (omega arith))
          (omega arith) (omega arith) in
      rw (attempts_retry (suc left) first waits (q first (omega arith) (omega arith)), early)
        (ih.0, ih.1, omega (arith, ih.2, length-append {0} waits (backoff env c first ∷ [])))

-- A reply that tells nothing: no response, or a server's error.
abbrev pub Unavailable : Reply → Type 0
Unavailable transport_error = Unit
Unavailable (answered r) = 500 ≤ r.status_code

settle-Unavailable :
    (env : Environment) (attempt : ℕ) (reply : Reply)
    → Unavailable reply
    → settle env attempt reply ≡ none
unfolding settle
settle-Unavailable env attempt transport_error h = refl
settle-Unavailable env attempt (answered r) h = ground arith

settle-answered :
    (env : Environment) (attempt : ℕ) (r : Response)
    → r.status_code < 500
    → settle env attempt (answered r)
      ≡ some (
          if r.status_code == 429
          then err (rate_limited (retry_after env r))
          else interpret env attempt r)
unfolding settle
settle-answered env attempt r h = ground arith

-- When the replies before the n-th are no response or a server's error, and the n-th is a response
-- with a status below 500, within the allowed attempts, then `fetch` ends with that response: a 429
-- raises the rate limit with its cooldown and any other is interpreted. It has sent n requests and
-- waited once between two, so no request follows that response.
pub fetch-settles :
    (env : Environment) (c : Client) (n : ℕ) (r : Response)
    → 1 ≤ n
    → n ≤ c.max_attempts
    → ((m : ℕ) → 1 ≤ m → m < n → Unavailable (env.replies m))
    → env.replies n ≡ answered r
    → r.status_code < 500
    → ((fetch env c).result ≡ (
        if r.status_code == 429 then err (rate_limited (retry_after env r)) else interpret env n r))
      × ((fetch env c).requests ≡ n)
      × (length (fetch env c).waits + 1 ≡ n)
unfolding fetch
fetch-settles env c n r first most early last below =
    let s : SettlesAt env c 1 n _ = record {
      after = first;
      settled = ap (settle env n) last ∙ settle-answered env n r below;
      retried = λ m a b. settle-Unavailable env m (env.replies m) (early m a b);
    } in
    let t = attempts-settles env c c.max_attempts 1 n [] _ s (omega arith) (omega arith) in
    (t.0, t.1, omega (arith, t.2))

-- If every attempt is to be retried, `fetch` raises that the source is unavailable after exactly
-- `max_attempts` requests, with a wait between any two and none after the last.
pub fetch-exhausted :
    (env : Environment) (c : Client)
    → 1 ≤ c.max_attempts
    → ((m : ℕ) → 1 ≤ m → m ≤ c.max_attempts → settle env m (env.replies m) ≡ none)
    → ((fetch env c).result ≡ err entsoe_unavailable)
      × ((fetch env c).requests ≡ c.max_attempts)
      × (length (fetch env c).waits + 1 ≡ c.max_attempts)
unfolding fetch
fetch-exhausted env c p q =
    let t =
      attempts-exhausted env c c.max_attempts 1 [] (λ m a b. q m a (omega arith)) (omega arith) p in
    (t.0, t.1, omega (arith, t.2))
