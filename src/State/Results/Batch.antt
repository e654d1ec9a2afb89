-- ===== src/State/Results/Batch.antt =====
-- What `RecordResultsBatch` writes.
use mathlib.Core.Path.{subst}
use sub_manager_vpn.Base.{
  append_assoc, ◌∙◌, append-nil, sym, ◌++◌, false, true, text_eq, refl, ap, ◌==◌, if◌then◌else◌,
  Bool, ◌∷◌, ◌∷◌, ◌≡◌, some, [], none, map, Option, List, ℕ, Text,
}
use mathlib.Core.List.{flat_map}
use sub_manager_vpn.Base.Chunks.{each}
use sub_manager_vpn.State.Nodes.{node_id}
use sub_manager_vpn.State.Results.{
  BatchResult, record_row, record_result, add_history, set_speed, record_results_batch,
  record_results_batch-each,
}
use sub_manager_vpn.State.Tables.{Db, NodeRow, ResultRow, HistoryRow, row_of}

-- The result and the sample of a row for the node with that id.
abbrev pub result_of : ℕ → ℕ → BatchResult → ℕ → ResultRow
result_of cycle now r id = record {
  node_id = id;
  alive = r.alive;
  latency_ms = r.latency_ms;
  speed_kbps = r.speed_kbps;
  checked_at = now;
  cycle_id = cycle;
}

abbrev pub sample_of : ℕ → ℕ → BatchResult → ℕ → HistoryRow
sample_of cycle now r id = record {
  node_id = id;
  latency_ms = r.latency_ms;
  checked_at = now;
  cycle_id = cycle;
}

-- One row for the node with the hash, none if there is no such node.
abbrev pub results_of : ℕ → ℕ → Db → BatchResult → List ResultRow
results_of cycle now db r = elim (node_id r.hash db) [
  | none ↦ []
  | some id ↦ result_of cycle now r id ∷ []
]

abbrev pub samples_of : ℕ → ℕ → Db → BatchResult → List HistoryRow
samples_of cycle now db r = elim (node_id r.hash db) [
  | none ↦ []
  | some id ↦ sample_of cycle now r id ∷ []
]

-- A node but for its speed.
abbrev pub speedless : NodeRow → NodeRow
speedless r = record r { speed_kbps = 0 }

abbrev id_of : Option NodeRow → Option ℕ
id_of o = elim o [ none ↦ none | some r ↦ some r.id ]

node_id-set_speed :
    (h : Text) (id speed : ℕ) (rows : List NodeRow)
    → id_of (row_of h (set_speed id speed rows)) ≡ id_of (row_of h rows)
unfolding row_of set_speed
node_id-set_speed h id speed [] = refl
node_id-set_speed h id speed (r ∷ rows) =
    go (r.id == id) (text_eq r.hash h) (node_id-set_speed h id speed rows)
  where
    other : Option NodeRow
    other = row_of h (set_speed id speed rows)

    pick :
        (t : Bool) (q : NodeRow)
        → q.id ≡ r.id
        → id_of other ≡ id_of (row_of h rows)
        → id_of (if t then some q else other) ≡ id_of (if t then some r else row_of h rows)
    pick true q same ih = ap some same
    pick false q same ih = ih

    go :
        (b t : Bool)
        → id_of other ≡ id_of (row_of h rows)
        → id_of (
            if text_eq (if b then record r { speed_kbps = speed } else r).hash h
            then some (if b then record r { speed_kbps = speed } else r)
            else other)
          ≡ id_of (if text_eq r.hash h then some r else row_of h rows)
    go true t ih = pick (text_eq r.hash h) (record r { speed_kbps = speed }) refl ih
    go false t ih = pick (text_eq r.hash h) r refl ih

speedless-set_speed :
    (id speed : ℕ) (rows : List NodeRow)
    → map speedless (set_speed id speed rows) ≡ map speedless rows
unfolding set_speed
speedless-set_speed id speed [] = refl
speedless-set_speed id speed (r ∷ rows) = go (r.id == id) (speedless-set_speed id speed rows)
  where
    go :
        (b : Bool)
        → map speedless (set_speed id speed rows) ≡ map speedless rows
        → speedless (if b then record r { speed_kbps = speed } else r)
            ∷ map speedless (set_speed id speed rows)
          ≡ speedless r ∷ map speedless rows
    go true ih = ap (λ l. speedless r ∷ l) ih
    go false ih = ap (λ l. speedless r ∷ l) ih

-- `d` is `db` with these results and samples behind the others, and other speeds at most.
abbrev pub IsExtended : List ResultRow → List HistoryRow → Db → Db → Type 0
IsExtended results samples db d =
    (d.results ≡ db.results ++ results)
    × (d.history ≡ db.history ++ samples)
    × (map speedless d.nodes ≡ map speedless db.nodes)

record_row-Row :
    (cycle now : ℕ) (r : BatchResult) (db : Db)
    → ((h : Text) → node_id h (record_row cycle now r db) ≡ node_id h db)
      × IsExtended
          (results_of cycle now db r)
          (samples_of cycle now db r)
          db
          (record_row cycle now r db)
unfolding record_row record_result add_history node_id
record_row-Row cycle now r db = go (node_id r.hash db)
  where
    next : Option ℕ → Db
    next o = elim o [
      | none ↦ db
      | some id ↦
          add_history id r.latency_ms cycle now
            (record_result id r.alive r.latency_ms r.speed_kbps cycle now db)
    ]

    go :
        (o : Option ℕ)
        → ((h : Text) → node_id h (next o) ≡ node_id h db)
          × IsExtended
              (elim o [ none ↦ [] | some id ↦ result_of cycle now r id ∷ [] ])
              (elim o [ none ↦ [] | some id ↦ sample_of cycle now r id ∷ [] ])
              db
              (next o)
    go none = ((λ h. refl), (sym (append-nil db.results), sym (append-nil db.history), refl))
    go (some id) = (
      (λ h. node_id-set_speed h id r.speed_kbps db.nodes),
      (refl, refl, speedless-set_speed id r.speed_kbps db.nodes),
    )

-- What is written behind what was written before.
behind :
    {A : Type 0} (start one one' rest after out : List A)
    → out ≡ after ++ rest
    → after ≡ start ++ one
    → one ≡ one'
    → out ≡ start ++ (one' ++ rest)
behind start one one' rest after out o a e = rw (o, a, e) (append_assoc start one' rest)

-- With the ids of the nodes in `base`
each-Rows :
    (cycle now : ℕ) (base : Db) (rows : List BatchResult) (db : Db)
    → ((h : Text) → node_id h db ≡ node_id h base)
    → IsExtended
        (flat_map (results_of cycle now base) rows)
        (flat_map (samples_of cycle now base) rows)
        db
        (each (record_row cycle now) rows db)
unfolding flat_map
each-Rows cycle now base [] db same =
    (sym (append-nil db.results), sym (append-nil db.history), refl)
each-Rows cycle now base (r ∷ rows) db same =
    let (kept, (results, samples, nodes)) = record_row-Row cycle now r db in
    let (more_results, more_samples, more_nodes) =
      each-Rows cycle now base rows (record_row cycle now r db) (λ h. kept h ∙ same h) in
    let one : results_of cycle now db r ≡ results_of cycle now base r =
      ap (λ o. elim o [ none ↦ [] | some id ↦ result_of cycle now r id ∷ [] ]) (same r.hash) in
    let two : samples_of cycle now db r ≡ samples_of cycle now base r =
      ap (λ o. elim o [ none ↦ [] | some id ↦ sample_of cycle now r id ∷ [] ]) (same r.hash) in
    (
      behind db.results _ _ _ _ _ more_results results one,
      behind db.history _ _ _ _ _ more_samples samples two,
      more_nodes ∙ nodes,
    )

-- While the clock stands still RecordResultsBatch writes one result and one sample for each row
-- whose hash a node has, in their order behind what was there, however many chunks they make; the
-- other rows are skipped, and of the nodes at most the speeds change.
pub record_results_batch-IsExtended :
    (cycle now : ℕ) (rows : List BatchResult) (db : Db)
    → IsExtended
        (flat_map (results_of cycle now db) rows)
        (flat_map (samples_of cycle now db) rows)
        db
        (record_results_batch cycle (λ _. now) rows db)
record_results_batch-IsExtended cycle now rows db =
    subst
      (IsExtended (flat_map (results_of cycle now db) rows)
        (flat_map (samples_of cycle now db) rows) db)
      (sym (record_results_batch-each cycle now rows db))
      (each-Rows cycle now db rows db (λ h. refl))
