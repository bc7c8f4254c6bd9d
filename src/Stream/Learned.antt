-- ===== src/Stream/Learned.antt =====
-- What a poll learns, the messages it makes, and a broker that keeps what it has taken.
use mathlib.Core.List.{append_assoc}
use gridlens.Prelude.{
  ℕ, Option, none, some, ◌≡◌, refl, sym, ap, ◌∙◌, String, List, [], ◌∷◌, ◌++◌, map, ok, err, length,
  ◌+◌, arith,
}
use gridlens.Contracts.Gate.{GateResult, accepted}
use gridlens.Ingest.Xml.{Readers}
use gridlens.Stream.{Message, observation, refusal, Broker, to_second, gate_fetched}
use gridlens.Exceptions.{entsoe_no_data}
use gridlens.Timeaxis.{Zone, settlement_day}

-- A broker that keeps the messages it has taken.
unfoldable pub recorded : {W : Type 0} → Broker W → Broker (W × List Message)
recorded broker = record {
  fetch = λ start end p. let (r, w) = broker.fetch start end p.0 in (r, (w, p.1));
  produce = λ m p.
      let (r, w) = broker.produce m p.0 in (r, (w, elim r [ ok u ↦ p.1 ++ m ∷ [] | err e ↦ p.1 ]));
  poll = λ p. (broker.poll p.0, p.1);
  flush = λ p. let (n, w) = broker.flush p.0 in (n, (w, p.1));
  refused = λ p. broker.refused p.0;
}

-- What the gate made of one day's answer, and when it was learned.
pub record Learned : Type 0 where
  pub known_at : ℕ
  pub gated : GateResult

-- What came of a day that was polled. With an answer: the broker's source gave, for the day's
-- settlement window, a body that the gate took at the second it was fetched; without: it said that
-- there is no data.
abbrev pub OutcomeOf : {W : Type 0} → Readers → Broker W → Zone → ℕ → Option Learned → Type 0
OutcomeOf {W} readers broker zone_tz day none =
    (start : ℕ) × (end : ℕ) × (w : W) × (code : String) × (text : String) × (status : ℕ)
    × (settlement_day day zone_tz ≡ ok (start, end))
    × ((broker.fetch start end w).0 ≡ err (entsoe_no_data code text status))
OutcomeOf {W} readers broker zone_tz day (some l) =
    (start : ℕ) × (end : ℕ) × (w : W) × (body : String) × (fetched_at : ℕ) × (settlement_day day
        zone_tz
      ≡ ok (start, end))
    × ((broker.fetch start end w).0 ≡ ok (body, fetched_at))
    × (l.known_at ≡ to_second fetched_at)
    × (gate_fetched readers body (to_second fetched_at) ≡ ok l.gated)

-- One outcome for each day, in the order of the days.
abbrev pub EachDay :
    {W : Type 0} → Readers → Broker W → Zone → List ℕ → List (Option Learned) → Type 0
EachDay readers broker zone_tz [] [] = Unit
EachDay readers broker zone_tz [] (o ∷ os) = ⊥
EachDay readers broker zone_tz (day ∷ days) [] = ⊥
EachDay readers broker zone_tz (day ∷ days) (o ∷ os) =
    OutcomeOf readers broker zone_tz day o × EachDay readers broker zone_tz days os

pub EachDay-append :
    {W : Type 0} (readers : Readers) (broker : Broker W) (zone_tz : Zone) (ds es : List ℕ)
    (os ps : List (Option Learned))
    → EachDay readers broker zone_tz ds os
    → EachDay readers broker zone_tz es ps
    → EachDay readers broker zone_tz (ds ++ es) (os ++ ps)
EachDay-append readers broker zone_tz [] es [] ps a b = b
EachDay-append readers broker zone_tz [] es (o ∷ os) ps a b = absurd a
EachDay-append readers broker zone_tz (d ∷ ds) es [] ps a b = absurd a
EachDay-append readers broker zone_tz (d ∷ ds) es (o ∷ os) ps a b =
    (a.0, EachDay-append readers broker zone_tz ds es os ps a.1 b)

-- What was learned on the days that had an answer.
unfoldable pub answered_of : List (Option Learned) → List Learned
answered_of [] = []
answered_of (none ∷ os) = answered_of os
answered_of (some l ∷ os) = l ∷ answered_of os

pub answered_of-append :
    (os ps : List (Option Learned)) → answered_of (os ++ ps) ≡ answered_of os ++ answered_of ps
unfolding answered_of
answered_of-append [] ps = refl
answered_of-append (none ∷ os) ps = answered_of-append os ps
answered_of-append (some l ∷ os) ps = ap (λ ls. l ∷ ls) (answered_of-append os ps)

-- The records in their order, then the refusals in theirs.
abbrev pub messages_of : Learned → List Message
messages_of l = map observation l.gated.records ++ map (refusal l.known_at) l.gated.violations

unfoldable pub all_messages : List Learned → List Message
all_messages [] = []
all_messages (l ∷ rest) = messages_of l ++ all_messages rest

unfoldable pub all_accepted : List Learned → ℕ
all_accepted [] = 0
all_accepted (l ∷ rest) = accepted l.gated + all_accepted rest

unfoldable pub all_refused : List Learned → ℕ
all_refused [] = 0
all_refused (l ∷ rest) = length l.gated.violations + all_refused rest

pub all_messages-append :
    (xs ys : List Learned) → all_messages (xs ++ ys) ≡ all_messages xs ++ all_messages ys
unfolding all_messages
all_messages-append [] ys = refl
all_messages-append (l ∷ xs) ys =
    ap (λ m. messages_of l ++ m) (all_messages-append xs ys)
    ∙ sym (append_assoc (messages_of l) (all_messages xs) (all_messages ys))

pub all_accepted-append :
    (xs ys : List Learned) → all_accepted (xs ++ ys) ≡ all_accepted xs + all_accepted ys
unfolding all_accepted
all_accepted-append [] ys = omega arith
all_accepted-append (l ∷ xs) ys = omega (arith, all_accepted-append xs ys)

pub all_refused-append :
    (xs ys : List Learned) → all_refused (xs ++ ys) ≡ all_refused xs + all_refused ys
unfolding all_refused
all_refused-append [] ys = omega arith
all_refused-append (l ∷ xs) ys = omega (arith, all_refused-append xs ys)
