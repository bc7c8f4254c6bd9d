-- ===== src/Scripts/Teardown/Confined.antt =====
-- What a teardown can reach.
use gridlens.Prelude.{
  ℕ, ◌≡◌, ◌≢◌, ◌⊎◌, refl, sym, inl, inr, String, Bool, true, false, not, ◌&&◌, ◌||◌, Option, none,
  some, List, [], ◌∷◌, ◌++◌, Result, ok, err, all, All, All-append, All-map, ◌<>◌, ◌==◌, eq_iff,
  &&_parts, Bool-cases, Option-cases, Result-cases, str_eq, length, ◌+◌, arith,
}
use gridlens.Exceptions.{Exception, drop_failed}
use gridlens.Timeaxis.Duration.{codes}
use gridlens.Lake.Query.{Execution, wait_for}
use gridlens.Scripts.Texts.{starts_with, lstrip, rstrip}
use gridlens.Scripts.Teardown.{
  check_schema, Table, ClientError, relations, Action, ran, deleted_database, deleted_objects,
  drop_statement, drop_relations, sweep_prefix, sweep_pages, Location, sweep, Teardown, finish,
  drop_found, teardown,
}

-- A name that begins with a prefix and goes on.
abbrev pub Extends : String → String → Type 0
Extends prefix name = (starts_with name prefix ≡ true) × (name ≢ prefix)

-- The name of a ci or audit schema, of letters, digits and underscores.
pub record Throwaway (is_alnum : ℕ → Bool) (name : String) : Type 0 where
  pub prefixed : Extends "gridlens_ci_" name ⊎ Extends "gridlens_audit_" name
  pub plain : All (λ c. (is_alnum c ≡ true) ⊎ (c ≡ b'_')) (codes name)

-- What an action may do: drop a relation of the schema by name, drop the schema, or delete objects of
-- the given bucket under the given path and the schema's name.
pub Confined : Option Location → String → Action → Type 0
Confined place database (ran sql) =
    (name : String) × ((sql ≡ "DROP VIEW IF EXISTS \"" <> database <> "\".\"" <> name <> "\"")
      ⊎ (sql ≡ "DROP TABLE IF EXISTS `" <> database <> "`.`" <> name <> "`"))
Confined place database (deleted_database d) = d ≡ database
Confined place database (deleted_objects bucket keys) =
    (p : Location) × (place ≡ some p)
    × (bucket ≡ p.bucket)
    × All (λ k. starts_with k (rstrip b'/' (lstrip b'/' p.path) <> "/" <> database <> "/") ≡ true)
        keys

drop_statement-Confined :
    (place : Option Location) (database name : String) (view : Bool)
    → Confined place database (ran (drop_statement database name view))
unfolding Confined drop_statement
drop_statement-Confined place database name true = (name, inl refl)
drop_statement-Confined place database name false = (name, inr refl)

extends :
    (prefix name : String)
    → (starts_with name prefix && not (str_eq name prefix)) ≡ true
    → Extends prefix name
extends prefix name h =
    let (a, b) = &&_parts (starts_with name prefix) (not (str_eq name prefix)) h in
    (a, λ e. let y = (eq_iff name prefix).1 e in ground arith)

plain_codes :
    (is_alnum : ℕ → Bool) (cs : List ℕ)
    → all (λ c. is_alnum c || c == b'_') cs ≡ true
    → All (λ c. (is_alnum c ≡ true) ⊎ (c ≡ b'_')) cs
plain_codes is_alnum [] h = tt
plain_codes is_alnum (c ∷ cs) h =
    let (a, b) = &&_parts (is_alnum c || c == b'_') (all (λ c. is_alnum c || c == b'_') cs) h in
    (
      elim (Bool-cases (is_alnum c)) [ inl y ↦ inl y | inr n ↦ inr (ground arith) ],
      plain_codes is_alnum cs b,
    )

check_schema-Throwaway :
    (is_alnum : ℕ → Bool) (name : String)
    → check_schema is_alnum name ≡ ok tt
    → Throwaway is_alnum name
unfolding check_schema
check_schema-Throwaway is_alnum name h =
    let of_ci = starts_with name "gridlens_ci_" && not (str_eq name "gridlens_ci_") in
    let of_audit = starts_with name "gridlens_audit_" && not (str_eq name "gridlens_audit_") in
    let parts : ((of_ci || (of_audit || false)) ≡ true)
        × (all (λ c. is_alnum c || c == b'_') (codes name) ≡ true) =
      ground arith in
    record {
      prefixed = elim (Bool-cases of_ci) [
        | inl y ↦ inl (extends "gridlens_ci_" name y)
        | inr n ↦ inr (extends "gridlens_audit_" name (ground arith))
      ];
      plain = plain_codes is_alnum (codes name) parts.1;
    }

-- A log that a run ends with.
ended_log :
    {A : Type 0} (P : Action → Type 0) (a r : A) (log log' : List Action)
    → ◌≡◌ {A = Option (A × List Action)} (some (a, log)) (some (r, log'))
    → All P log
    → All P log'
ended_log P a r log log' e h = let same : log ≡ log' = cc e in rw (sym same) h

module _ (is_alnum : ℕ → Bool) (answers : String → ℕ → Execution) (fuel : ℕ)
    (P : Action → Type 0) where
  drop_relations-All :
      (database : String) (found : List (String × Bool)) (dropped : List String)
      (log log' : List Action) (r : Result Exception (List String))
      → ((name : String) (view : Bool) → P (ran (drop_statement database name view)))
      → All P log
      → drop_relations is_alnum answers fuel database found dropped log ≡ some (r, log')
      → All P log'
  unfolding drop_relations
  drop_relations-All database [] dropped log log' r p h e = ended_log P (ok dropped) r log log' e h
  drop_relations-All database ((name, view) ∷ rest) dropped log log' r p h e =
      elim (Result-cases (check_schema is_alnum database)) [
        | inr (x, c) ↦ ended_log P (err x) r log log' (rw (c, drop_relations) at e) h
        | inl (u, c) ↦
            elim (Option-cases (
              wait_for (answers (drop_statement database name view)) fuel drop_failed
                "no reason given")) [
                  | inl w ↦ cc (rw (w, drop_relations) at (rw (c, drop_relations) at e))
                  | inr (err x, w) ↦
                      ended_log P (err x) r _ log'
                        (rw (w, drop_relations) at (rw (c, drop_relations) at e))
                        (All-append P log (ran (drop_statement database name view) ∷ []) h
                          (p name view, tt))
                  | inr (ok x, w) ↦
                      drop_relations-All database rest (dropped ++ name ∷ []) _ log' r p
                        (All-append P log (ran (drop_statement database name view) ∷ []) h
                          (p name view, tt))
                        (rw (w, drop_relations) at (rw (c, drop_relations) at e))
                ]
      ]

-- `ListObjectsV2` lists keys that begin with the prefix it is given.
abbrev pub Listing : (String → String → List (List String)) → Type 0
Listing list_objects =
    (bucket prefix : String)
    → All (λ page. All (λ k. starts_with k prefix ≡ true) page) (list_objects bucket prefix)

sweep_pages-All :
    (P : Action → Type 0) (bucket : String) (pages : List (List String)) (deleted : ℕ)
    (log : List Action)
    → All (λ page. P (deleted_objects bucket page)) pages
    → All P log
    → All P (sweep_pages bucket pages deleted log).1
unfolding sweep_pages
sweep_pages-All P bucket [] deleted log p h = h
sweep_pages-All P bucket ([] ∷ pages) deleted log p h =
    sweep_pages-All P bucket pages deleted log p.1 h
sweep_pages-All P bucket ((k ∷ keys) ∷ pages) deleted log p h =
    sweep_pages-All P bucket pages (deleted + length (k ∷ keys))
      (log ++ deleted_objects bucket (k ∷ keys) ∷ []) p.1
      (All-append P log (deleted_objects bucket (k ∷ keys) ∷ []) h (p.0, tt))

module _ (is_alnum : ℕ → Bool) (answers : String → ℕ → Execution) (fuel : ℕ)
    (list_objects : String → String → List (List String)) (listing : Listing list_objects) where
  finish-All :
      (place : Option Location) (database : String) (existed : Bool) (dropped : List String)
      (log : List Action)
      → All (Confined place database) log
      → All
          (Confined place database)
          (finish is_alnum answers fuel list_objects place database existed dropped log).1
  unfolding finish sweep sweep_prefix Confined
  finish-All none database existed dropped log h = h
  finish-All (some place) database existed dropped log h =
      let prefix = rstrip b'/' (lstrip b'/' place.path) <> "/" <> database <> "/" in
      sweep_pages-All (Confined (some place) database) place.bucket
        (list_objects place.bucket prefix) 0 log
        (All-map _ _ (list_objects place.bucket prefix) (λ page k. (place, refl, refl, k))
          (listing place.bucket prefix))
        h

  drop_found-All :
      (place : Option Location) (database : String) (found : Option (List (String × Bool)))
      (log : List Action) (r : Result Exception Teardown)
      → drop_found is_alnum answers fuel list_objects place database found ≡ some (r, log)
      → All (Confined place database) log
  unfolding drop_found Confined
  drop_found-All place database none log r e =
      ended_log (Confined place database) _ r _ log e (finish-All place database false [] [] tt)
  drop_found-All place database (some found) log r e =
      let P = Confined place database in
      let dropping = drop_relations is_alnum answers fuel database found [] [] in
      elim (Option-cases dropping) [
        | inl c ↦ cc (rw (c, drop_found) at e)
        | inr ((err x, log1), c) ↦ ended_log P (err x) r log1 log (rw (c, drop_found) at e) (
            drop_relations-All is_alnum answers fuel P database found [] [] log1 (err x)
              (drop_statement-Confined place database) tt c)
        | inr ((ok names, log1), c) ↦ ended_log P _ r _ log (rw (c, drop_found) at e) (
            finish-All place database true names (log1 ++ deleted_database database ∷ []) (
              All-append P log1 (deleted_database database ∷ [])
                (drop_relations-All is_alnum answers fuel P database found [] [] log1 (ok names)
                  (drop_statement-Confined place database) tt c)
                (refl, tt)))
      ]

  -- Where the store lists only keys under the prefix that it is asked for: a teardown that ends has
  -- done nothing at all, or the name is that of a ci or audit schema, and all that it has done is to
  -- drop views and tables of that schema by name, to delete that schema, and, where a place is given,
  -- to delete objects of its bucket whose keys begin with its path, stripped of slashes, a slash, the
  -- schema's name and a slash.
  pub teardown-Confined :
      (pages : List (Result ClientError (List Table))) (place : Option Location) (database : String)
      (log : List Action) (r : Result Exception Teardown)
      → teardown is_alnum answers fuel list_objects pages place database ≡ some (r, log)
      → (log ≡ []) ⊎ (Throwaway is_alnum database × All (Confined place database) log)
  unfolding teardown
  teardown-Confined pages place database log r e =
      elim (Result-cases (check_schema is_alnum database)) [
        | inr (x, c) ↦ inl (cc (rw (c, teardown) at e))
        | inl (u, c) ↦
            let e' = rw (c, teardown) at e in
            elim (Result-cases (relations pages [])) [
              | inr (x, d) ↦ inl (cc (rw (d, teardown) at e'))
              | inl (found, d) ↦ inr (
                check_schema-Throwaway is_alnum database c,
                drop_found-All place database found log r (rw (d, teardown) at e'),
              )
            ]
      ]
