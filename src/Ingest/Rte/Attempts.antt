-- ===== src/Ingest/Rte/Attempts.antt =====
-- How often the RTE client asks.
use gridlens.Prelude.{
  ℕ, zero, suc, ◌+◌, ◌-◌, ◌*◌, ◌^◌, min, ◌≤◌, ◌≡◌, refl, ap, ◌∙◌, ◌⊎◌, inl, inr, String, Bool, true,
  false, Option, none, some, List, ok, err, arith, Result-cases, Option-cases,
}
use gridlens.Exceptions.{Exception}
use gridlens.Ingest.Client.{FetchResult}
use gridlens.Ingest.Rte.{
  RteClient, Session, TokenResponse, Network, Bearer, unreached, raised, bearer, Step, ends,
  refreshes, retries, token_in_use, take_token, get_bearer, pause, judge, request, rte_attempts,
  rte_fetch,
}

-- A count of the requests to the resource and one of those to the token endpoint, as a network
-- keeps them: each request adds one to its count, and nothing else changes either.
pub record Counted {W : Type 0} (net : Network W) : Type 0 where
  pub gets : W → ℕ
  pub posts : W → ℕ
  pub get_adds :
      (path : String) (params : List (String × String)) (t : String) (w : W)
      → (gets (net.get path params t w).1 ≡ gets w + 1)
        × (posts (net.get path params t w).1 ≡ posts w)
  pub post_adds :
      (basic : String) (w : W)
      → (gets (net.post basic w).1 ≡ gets w) × (posts (net.post basic w).1 ≡ posts w + 1)
  pub acquire_keeps : (w : W) → (gets (net.acquire w) ≡ gets w) × (posts (net.acquire w) ≡ posts w)
  pub now_keeps : (w : W) → (gets (net.now w).1 ≡ gets w) × (posts (net.now w).1 ≡ posts w)
  pub sleep_keeps :
      (t : ℕ) (w : W) → (gets (net.sleep t w) ≡ gets w) × (posts (net.sleep t w) ≡ posts w)
  pub uniform_keeps :
      (t : ℕ) (w : W) → (gets (net.uniform t w).1 ≡ gets w) × (posts (net.uniform t w).1 ≡ posts w)

Bearer-cases :
    (b : Bearer)
    → (b ≡ unreached) ⊎ ((e : Exception) × (b ≡ raised e)) ⊎ ((t : String) × (b ≡ bearer t))
Bearer-cases unreached = inl refl
Bearer-cases (raised e) = inr (inl (e, refl))
Bearer-cases (bearer t) = inr (inr (t, refl))

Step-cases :
    (t : Step)
    → ((body : FetchResult) × (t ≡ ends (ok body)))
      ⊎ ((e : Exception) × (t ≡ ends (err e)))
      ⊎ (t ≡ refreshes)
      ⊎ (t ≡ retries)
Step-cases (ends (ok body)) = inl (body, refl)
Step-cases (ends (err e)) = inr (inl (e, refl))
Step-cases refreshes = inr (inr (inl refl))
Step-cases retries = inr (inr (inr refl))

module _ {W : Type 0} (net : Network W) (c : RteClient) (count : Counted net) where
  take_token_counts :
      (s : Session) (a : Option TokenResponse) (w : W)
      → (count.gets (take_token net c s a w).2 ≡ count.gets w)
        × (count.posts (take_token net c s a w).2 ≡ count.posts w)
  unfolding take_token
  take_token_counts s none w = (refl, refl)
  take_token_counts s (some r) w = ground (arith, count.now_keeps w)

  token_in_use_counts :
      (s : Session) (w : W)
      → (count.gets (token_in_use net c s w).1 ≡ count.gets w)
        × (count.posts (token_in_use net c s w).1 ≡ count.posts w)
  unfolding token_in_use
  token_in_use_counts s w = ground (arith, count.now_keeps w)

  get_bearer_counts :
      (s : Session) (w : W)
      → (count.gets (get_bearer net c s w).2 ≡ count.gets w)
        × (count.posts (get_bearer net c s w).2 ≤ count.posts w + 1)
  unfolding get_bearer
  get_bearer_counts s w =
      let (held, w1) = token_in_use net c s w in
      let (answer, w2) = net.post c.basic w1 in
      ground
        (arith, token_in_use_counts s w, count.post_adds c.basic w1, take_token_counts s answer w2)

  pause_counts :
      (attempt : ℕ) (w : W)
      → (count.gets (pause net c attempt w) ≡ count.gets w)
        × (count.posts (pause net c attempt w) ≡ count.posts w)
  unfolding pause
  pause_counts attempt w =
      let (wait, w1) = net.uniform (min c.backoff_cap (c.backoff_base * 2 ^ (attempt - 1))) w in
      ground (
        arith,
        count.uniform_keeps (min c.backoff_cap (c.backoff_base * 2 ^ (attempt - 1))) w,
        count.sleep_keeps wait w1,
      )

  request_counts :
      (path : String) (params : List (String × String)) (s : Session) (w : W)
      → (count.gets (request net c path params s w).2 ≤ count.gets w + 1)
        × (count.posts (request net c path params s w).2 ≤ count.posts w + 1)
  unfolding request
  request_counts path params s w =
      let w1 : W = (get_bearer net c s (net.acquire w)).2 in
      let asked = get_bearer_counts s (net.acquire w) in
      let kept = count.acquire_keeps w in
      elim (Bearer-cases (get_bearer net c s (net.acquire w)).0) [
        | inl b ↦ rw (b, request) (omega (arith, asked, kept))
        | inr (inl (e, b)) ↦ rw (b, request) (omega (arith, asked, kept))
        | inr (inr (t, b)) ↦ ground (arith, asked, kept, count.get_adds path params t w1)
      ]

  -- Each round makes at most one request of either kind.
  rte_attempts_counts :
      (path : String) (params : List (String × String)) (left attempt : ℕ) (refreshed : Bool)
      (s : Session) (w : W)
      → (count.gets (rte_attempts net c path params left attempt refreshed s w).2
          ≤ count.gets w + left)
        × (count.posts (rte_attempts net c path params left attempt refreshed s w).2
            ≤ count.posts w + left)
  unfolding rte_attempts
  rte_attempts_counts path params zero attempt refreshed s w = (omega arith, omega arith)
  rte_attempts_counts path params (suc left) attempt refreshed s w =
      let s1 : Session = (request net c path params s w).1 in
      let w1 : W = (request net c path params s w).2 in
      let made = request_counts path params s w in
      let waited = pause_counts attempt w1 in
      let read = count.now_keeps w1 in
      let again =
        rte_attempts_counts path params left (attempt + 1) refreshed s1 (pause net c attempt w1) in
      let fresh =
        rte_attempts_counts path params left (attempt + 1) true (record s1 { token = none }) w1 in
      elim (Result-cases (request net c path params s w).0) [
        | inr (e, b) ↦ rw (b, rte_attempts) (omega (arith, made.0), omega (arith, made.1))
        | inl (o, b) ↦ elim (Option-cases o) [
          | inl z ↦
              rw (b ∙ ap ok z, rte_attempts)
                (omega (arith, made.0, waited.0, again.0), omega (arith, made.1, waited.1, again.1))
          | inr (r, z) ↦ elim (Step-cases (judge net c refreshed (net.now w1).0 r)) [
            | inl (body, j) ↦
                rw (b ∙ ap ok z, rte_attempts)
                  (rw (j, rte_attempts)
                    (omega (arith, made.0, read.0), omega (arith, made.1, read.1)))
            | inr (inl (e, j)) ↦
                rw (b ∙ ap ok z, rte_attempts)
                  (rw (j, rte_attempts) (omega (arith, made.0), omega (arith, made.1)))
            | inr (inr (inl j)) ↦
                rw (b ∙ ap ok z, rte_attempts)
                  (rw (j, rte_attempts)
                    (omega (arith, made.0, fresh.0), omega (arith, made.1, fresh.1)))
            | inr (inr (inr j)) ↦
                rw (b ∙ ap ok z, rte_attempts)
                  (rw (j, rte_attempts)
                    (
                      omega (arith, made.0, waited.0, again.0),
                      omega (arith, made.1, waited.1, again.1),
                    ))
          ]
        ]
      ]

-- `fetch` asks the resource at most `max_attempts` times, and the token endpoint at most as often,
-- whatever either answers.
pub rte_fetch_bounded :
    {W : Type 0} (net : Network W) (c : RteClient) (count : Counted net) (path : String)
    (params : List (String × String)) (s : Session) (w : W)
    → (count.gets (rte_fetch net c path params s w).2 ≤ count.gets w + c.max_attempts)
      × (count.posts (rte_fetch net c path params s w).2 ≤ count.posts w + c.max_attempts)
unfolding rte_fetch
rte_fetch_bounded net c count path params s w =
    rte_attempts_counts net c count path params c.max_attempts 1 false s w
