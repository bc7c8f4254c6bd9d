-- ===== src/Ingest/Rte/Token.antt =====
-- The RTE client's token: a second 401 is believed, and a token is used while it lasts.
use gridlens.Prelude.{
  ℕ, suc, ◌+◌, ◌-◌, ◌≤◌, ◌<◌, ◌≡◌, refl, sym, ap, ◌∙◌, ◌⊎◌, inl, inr, String, true, false, ◌||◌,
  Result, Result-cases, ok-injective, Option, none, some, List, ok, err, arith, Bool-cases,
  Option-cases, ◌==◌,
}
use gridlens.Exceptions.{Exception, rte_auth_error}
use gridlens.Ingest.Client.{Response}
use gridlens.Ingest.Rte.{
  RteClient, Session, lifetime, TokenPayload, TokenResponse, Network, bearer, ends, refreshes,
  token_in_use, take_token, get_bearer, judge, request, rte_attempts, rte_fetch,
}

judge_refreshes :
    {W : Type 0} (net : Network W) (c : RteClient) (now : ℕ) (r : Response)
    → r.status_code ≡ 401
    → judge net c false now r ≡ refreshes
unfolding judge
judge_refreshes net c now r h = ground arith

judge_rejects :
    {W : Type 0} (net : Network W) (c : RteClient) (now : ℕ) (r : Response)
    → r.status_code ≡ 401
    → judge net c true now r ≡ ends (err (rte_auth_error "credentials rejected"))
unfolding judge
judge_rejects net c now r h = ground arith

module _ {W : Type 0} (net : Network W) (c : RteClient) (path : String)
    (params : List (String × String)) where
  -- a first 401, and a later one
  attempt_refreshes :
      (left attempt : ℕ) (s : Session) (w : W) (r : Response)
      → (request net c path params s w).0 ≡ ok (some r)
      → r.status_code ≡ 401
      → rte_attempts net c path params (suc left) attempt false s w
        ≡ rte_attempts net c path params left
            (attempt + 1)
            true
            (record (request net c path params s w).1 { token = none })
            (request net c path params s w).2
  unfolding rte_attempts
  attempt_refreshes left attempt s w r got u =
      rw (got, rte_attempts)
        (rw (judge_refreshes net c (net.now (request net c path params s w).2).0 r u, rte_attempts)
          refl)

  attempt_rejects :
      (left attempt : ℕ) (s : Session) (w : W) (r : Response)
      → (request net c path params s w).0 ≡ ok (some r)
      → r.status_code ≡ 401
      → rte_attempts net c path params (suc left) attempt true s w ≡ (
        err (rte_auth_error "credentials rejected"),
        (request net c path params s w).1,
        (request net c path params s w).2,
      )
  unfolding rte_attempts
  attempt_rejects left attempt s w r got u =
      rw (got, rte_attempts)
        (rw (judge_rejects net c (net.now (request net c path params s w).2).0 r u, rte_attempts)
          refl)

-- Where at least two attempts are allowed, a first answer of 401 drops the token and asks once more,
-- without a wait; if the second answer is a 401 too, `fetch` raises that the credentials are rejected, and the second request is its last.
pub rte_fetch_rejected :
    {W : Type 0} (net : Network W) (c : RteClient) (path : String) (params : List (String × String))
    (s s1 s2 : Session) (w w1 w2 : W) (first second : Response)
    → 2 ≤ c.max_attempts
    → request net c path params s w ≡ (ok (some first), s1, w1)
    → first.status_code ≡ 401
    → request net c path params (record s1 { token = none }) w1 ≡ (ok (some second), s2, w2)
    → second.status_code ≡ 401
    → rte_fetch net c path params s w ≡ (err (rte_auth_error "credentials rejected"), s2, w2)
unfolding rte_fetch
rte_fetch_rejected net c path params s s1 s2 w w1 w2 first second m one u two v =
    let n : ℕ = c.max_attempts - 2 in
    let e : c.max_attempts ≡ suc (suc n) = omega arith in
    ap (λ k. rte_attempts net c path params k 1 false s w) e
    ∙ (attempt_refreshes net c path params (suc n) 1 s w first (ap (λ o. o.0) one) u
        ∙ rw (ap (λ o. o.1) one, ap (λ o. o.2) one)
            (attempt_rejects net c path params n 2 (record s1 { token = none }) w1 second
                (ap (λ o. o.0) two) v
              ∙ rw (ap (λ o. o.1) two, ap (λ o. o.2) two) refl))

-- A token of the token endpoint: the answer to a request made in a state of the network, and when it
-- expires.
pub record Renewed {W : Type 0} (net : Network W) (c : RteClient) (s s' : Session) (w : W)
    (t : String) : Type 0 where
  pub answer : TokenResponse
  pub payload : TokenPayload
  pub granted_for : ℕ
  pub posted : (net.post c.basic w).0 ≡ some answer
  pub granted : answer.status_code ≡ 200
  pub read : answer.json ≡ ok payload
  pub token_of : payload.access_token ≡ some t
  pub lasts :
      (payload.expires_in ≡ some (ok granted_for))
      ⊎ ((payload.expires_in ≡ none) × (granted_for ≡ 3600000000))
  pub token : s'.token ≡ some t
  pub expires : s'.expires_at ≡ (net.now (net.post c.basic w).1).0 + (granted_for - 60000000)
  pub counted : s'.token_fetches ≡ s.token_fetches + 1

lifetime-lasts :
    (e : Option (Result Exception ℕ)) (seconds : ℕ)
    → lifetime e ≡ ok seconds
    → (e ≡ some (ok seconds)) ⊎ ((e ≡ none) × (seconds ≡ 3600000000))
lifetime-lasts none seconds h = inr (refl, sym (ok-injective h))
lifetime-lasts (some t) seconds h = inl (ap some h)

take_token-Renewed :
    {W : Type 0} (net : Network W) (c : RteClient) (s s' : Session) (a : Option TokenResponse)
    (w w' : W) (t : String)
    → (net.post c.basic w).0 ≡ a
    → take_token net c s a (net.post c.basic w).1 ≡ (bearer t, s', w')
    → Renewed net c s s' w t
unfolding take_token
take_token-Renewed net c s s' none w w' t asked h = cc
take_token-Renewed net c s s' (some r) w w' t asked h =
    elim (Bool-cases (r.status_code == 400 || r.status_code == 401)) [
      | inl bad ↦ absurd (ground arith)
      | inr fine ↦ elim (Bool-cases (r.status_code == 200)) [
        | inr other ↦ absurd (ground arith)
        | inl good ↦ elim (Result-cases r.json) [
          | inr (e, broken) ↦ absurd (ground arith)
          | inl (payload, loaded) ↦ elim (Option-cases payload.access_token) [
            | inl missing ↦ absurd (ground arith)
            | inr (u, given) ↦ elim (Result-cases (lifetime payload.expires_in)) [
              | inr (e, unread) ↦ absurd (ground arith)
              | inl (seconds, long) ↦ record {
                answer = r;
                payload = payload;
                granted_for = seconds;
                posted = asked;
                granted = ground arith;
                read = loaded;
                token_of = ground arith;
                lasts = lifetime-lasts payload.expires_in seconds long;
                token = ground arith;
                expires = ground arith;
                counted = ground arith;
              }
            ]
          ]
        ]
      ]
    ]

token_in_use_held :
    {W : Type 0} (net : Network W) (c : RteClient) (s : Session) (w : W) (u : String)
    → (token_in_use net c s w).0 ≡ some u
    → (s.token ≡ some u) × ((net.now w).0 < s.expires_at)
unfolding token_in_use
token_in_use_held net c s w u h = (ground arith, ground arith)

same_bearer :
    {W : Type 0} (net : Network W) (c : RteClient) (s s' : Session) (w w' : W) (t u : String)
    → (token_in_use net c s w).0 ≡ some u
    → get_bearer net c s w ≡ (bearer t, s', w')
    → (s' ≡ s) × (s.token ≡ some t) × ((net.now w).0 < s.expires_at)
unfolding get_bearer
same_bearer net c s s' w w' t u held h =
    let k = token_in_use_held net c s w u held in
    let h' : (bearer u, s, (token_in_use net c s w).1) ≡ (bearer t, s', w') =
      rw (held, get_bearer) at h in
    let e : u ≡ t = cc (ap (λ p. p.0) h') in (sym (ap (λ p. p.1) h'), rw e at k.0, k.1)

-- A token that `_bearer` returns is either the one that was held, with the clock before its expiry and
-- nothing changed, or it is from the answer, with status 200, to the request to the token endpoint
-- that follows the look at the held one; then it is held until its lifetime, an hour where none is
-- given, less a minute, has passed on the clock that is read after that request.
pub get_bearer_fresh :
    {W : Type 0} (net : Network W) (c : RteClient) (s s' : Session) (w w' : W) (t : String)
    → get_bearer net c s w ≡ (bearer t, s', w')
    → ((s' ≡ s) × (s.token ≡ some t) × ((net.now w).0 < s.expires_at))
      ⊎ Renewed net c s s' (token_in_use net c s w).1 t
unfolding get_bearer
get_bearer_fresh net c s s' w w' t h = elim (Option-cases (token_in_use net c s w).0) [
  | inr (u, held) ↦ inl (same_bearer net c s s' w w' t u held h)
  | inl lapsed ↦ inr (take_token-Renewed net c s s' _ _ w' t refl (rw (lapsed, get_bearer) at h))
]
