-- ===== src/Stream.antt =====
-- src/gridlens/stream/: one poll of the source, the topics, and the header of a message.
mod Tests
pub mod Wire
pub mod Learned
pub mod Sent
pub mod Published
pub mod Service
pub mod Figures
pub mod Startup
use gridlens.Prelude.{
  ℕ, ◌+◌, ◌-◌, ◌/◌, ◌%◌, String, Bool, true, false, not, ◌&&◌, ◌||◌, Option, none, some, List, [],
  ◌∷◌, ◌++◌, Result, ok, err, ◌>>=◌, length, ltb, leb, ◌==◌, str_eq, if◌then◌else◌,
}
use gridlens.Prelude.Int.{pos}
use gridlens.Exceptions.{Exception, entsoe_no_data, delivery_failed}
use gridlens.Timeaxis.{Zone, settlement_day, day_us, hour_us, second_us}
use gridlens.Contracts.Records.{Moment, aware, GenerationRecord}
use gridlens.Contracts.Gate.{GateResult, Violation, apply_gate, accepted}
use gridlens.Ingest.Xml.{Readers}
use gridlens.Ingest.Parse.{parse_generation}

-- `days_to_poll`, from the reading of `now` in the zone
unfoldable pub days_to_poll : Zone → ℕ → List ℕ
days_to_poll zone_tz now =
    let local = zone_tz.fromutc now in
    let today = local / day_us in
    if ltb (local % day_us / hour_us) 3 then (today - 1) ∷ today ∷ [] else today ∷ []

-- What a poll publishes: a record, or a refusal with the time it was seen at.
pub data Message : Type 0 where
  observation : GenerationRecord → Message
  refusal : ℕ → Violation → Message

-- The source and the producer, over a state of the outside world; `refused` counts the errors that
-- delivery callbacks have reported, and `flush` gives the messages that are still queued.
pub record Broker (W : Type 0) : Type 0 where
  pub fetch : ℕ → ℕ → W → Result Exception (String × ℕ) × W
  pub produce : Message → W → Result Exception (Unit {0}) × W
  pub poll : W → W
  pub flush : W → ℕ × W
  pub refused : W → ℕ

pub record DayCount : Type 0 where
  pub day : ℕ
  pub records : ℕ
  pub gaps : ℕ

pub record PollSummary : Type 0 where
  pub published : ℕ
  pub quarantined : ℕ
  pub empty_days : List ℕ
  pub days : List DayCount

abbrev pub nothing_polled : PollSummary
nothing_polled = record { published = 0; quarantined = 0; empty_days = []; days = [] }

-- `fetched_at` to the second, as a UTC moment
abbrev pub to_second : ℕ → ℕ
to_second t = t - t % second_us

unfoldable pub gate_fetched : Readers → String → ℕ → Result Exception GateResult
gate_fetched readers body known_at = do
  document ← parse_generation readers body
  apply_gate document (aware known_at (pos 0))

module _ {W : Type 0} (readers : Readers) (broker : Broker W) (zone_tz : Zone) where
  unfoldable pub publish_records : List GenerationRecord → W → Result Exception (Unit {0}) × W
  publish_records [] w = (ok tt, w)
  publish_records (r ∷ rest) w =
      let (sent, w') = broker.produce (observation r) w in
      elim sent [ err e ↦ (err e, w') | ok _ ↦ publish_records rest (broker.poll w') ]

  unfoldable pub publish_refusals : ℕ → List Violation → W → Result Exception (Unit {0}) × W
  publish_refusals seen_at [] w = (ok tt, w)
  publish_refusals seen_at (v ∷ rest) w =
      let (sent, w') = broker.produce (refusal seen_at v) w in
      elim sent [ err e ↦ (err e, w') | ok _ ↦ publish_refusals seen_at rest w' ]

  unfoldable pub publish : ℕ → ℕ → GateResult → PollSummary → W → Result Exception PollSummary × W
  publish day known_at g s w =
      let (sent, w') = publish_records g.records w in
      elim sent [
        | err e ↦ (err e, w')
        | ok _ ↦
            let (refused, w'') = publish_refusals known_at g.violations w' in
            elim refused [
              | err e ↦ (err e, w'')
              | ok _ ↦ (
                ok (record {
                  published = s.published + accepted g;
                  quarantined = s.quarantined + length g.violations;
                  empty_days = s.empty_days;
                  days =
                      s.days
                      ++ (record { day = day; records = accepted g; gaps = length g.gaps }) ∷ [];
                }),
                w'',
              )
            ]
      ]

  -- `except EntsoeNoData`
  unfoldable pub unanswered : PollSummary → ℕ → Exception → W → Result Exception PollSummary × W
  unanswered s day (entsoe_no_data code text status) w =
      (ok (record s { empty_days = s.empty_days ++ day ∷ [] }), w)
  unanswered s day other w = (err other, w)

  -- one round of the loop of `poll_once`
  unfoldable pub poll_day : PollSummary → ℕ → W → Result Exception PollSummary × W
  poll_day s day w = elim (settlement_day day zone_tz) [
    | err e ↦ (err e, w)
    | ok (start, end) ↦
        let (fetched, w') = broker.fetch start end w in
        elim fetched [
          | err e ↦ unanswered s day e w'
          | ok (body, fetched_at) ↦ elim (gate_fetched readers body (to_second fetched_at)) [
            | err e ↦ (err e, w')
            | ok g ↦ publish day (to_second fetched_at) g s w'
          ]
        ]
  ]

  unfoldable pub poll_days : PollSummary → List ℕ → W → Result Exception PollSummary × W
  poll_days s [] w = (ok s, w)
  poll_days s (day ∷ rest) w =
      let (done, w') = poll_day s day w in
      elim done [ err e ↦ (err e, w') | ok s' ↦ poll_days s' rest w' ]

  -- `poll_once`
  unfoldable pub poll_once : ℕ → W → Result Exception PollSummary × W
  poll_once now w =
      let (done, w') = poll_days nothing_polled (days_to_poll zone_tz now) w in
      elim done [
        | err e ↦ (err e, w')
        | ok s ↦
            let (unsent, w'') = broker.flush w' in
            if not (unsent == 0) || not (broker.refused w'' == 0)
            then (err (delivery_failed unsent (broker.refused w'')), w'')
            else (ok s, w'')
      ]

-- `Topic`, with its configuration
pub record Topic : Type 0 where
  pub name : String
  pub partitions : ℕ
  pub config : List (String × String)

abbrev observations_topic : Topic
observations_topic = record {
  name = "gridlens.entsoe.generation.v1";
  partitions = 3;
  config = ("cleanup.policy", "delete") ∷ ("retention.ms", "1209600000") ∷ [];
}

abbrev quarantine_topic : Topic
quarantine_topic = record {
  name = "gridlens.entsoe.generation.quarantine.v1";
  partitions = 1;
  config = ("cleanup.policy", "delete") ∷ ("retention.ms", "2592000000") ∷ [];
}

-- How a future of `create_topics` ends: done, or an exception with the code of its error if it has one.
pub data Creation : Type 0 where
  done : Creation
  failed : Option ℕ → Exception → Creation

-- `ensure`, from the futures that the admin gives for the topics
unfoldable ensure :
    (List Topic → List (String × Creation)) → List Topic → Result Exception (List String)
ensure create_topics topics = created_of (create_topics topics)
  where
    created_of : List (String × Creation) → Result Exception (List String)
    created_of [] = ok []
    created_of ((name, done) ∷ rest) = do later ← created_of rest; ok (name ∷ later)
    created_of ((name, failed none e) ∷ rest) = err e
    created_of ((name, failed (some code) e) ∷ rest) =
        let later = created_of rest in if code == 36 then later else err e
