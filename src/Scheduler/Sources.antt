-- ===== src/Scheduler/Sources.antt =====
-- internal/scheduler/scheduler.go: one source is fetched, parsed and filtered, or taken from the cache.
use sub_manager_vpn.Filter.Defs.{
  drop_malware, drop_insecure, drop_open, drop_unsupported, drop_broken, dedup,
}
use sub_manager_vpn.Node.{Node}
use sub_manager_vpn.State.Tables.{set_source_meta, get_source_meta, SourceMeta, Db}
use sub_manager_vpn.Scheduler.Cache.{set_cache, cached_nodes, ParseCache}
use sub_manager_vpn.Base.{
  ◌-◌, length, ◌+◌, true, text_eq, ◌++◌, ◌&&◌, not, is_empty, [], ◌∷◌, some, none, if◌then◌else◌,
  false, Bool, ℕ, Text, Option, List,
}
pub mod Counted
pub mod Faithful
pub mod Transparent
pub mod Examples

-- `fetch.FetchedSource`
pub record FetchedSource : Type 0 where
  pub url : Text
  pub body : Text
  pub etag : Text
  pub last_modified : Text
  pub not_modified : Bool

-- The counters of the filters in `Snapshot`
pub record Counters : Type 0 where
  pub parsed : ℕ
  pub dedup_kept : ℕ
  pub dropped_broken : ℕ
  pub dropped_unsupported : ℕ
  pub dropped_insecure : ℕ
  pub dropped_malware : ℕ
  pub kept : ℕ

-- The filters of `parseFetched` on the nodes of one body. `DropOpen` has no counter.
unfoldable pub filter_counted : List Node → Counters → List Node × Counters
filter_counted nodes st =
    let a = dedup nodes in
    let b = drop_broken a in
    let c = drop_unsupported b in
    let d = drop_open c in
    let e = drop_insecure d in
    let f = drop_malware e in
    (
      f,
      record {
        parsed = st.parsed + length nodes;
        dedup_kept = st.dedup_kept + length a;
        dropped_broken = st.dropped_broken + (length a - length b);
        dropped_unsupported = st.dropped_unsupported + (length b - length c);
        dropped_insecure = st.dropped_insecure + (length d - length e);
        dropped_malware = st.dropped_malware + (length e - length f);
        kept = st.kept + length f;
      },
    )

-- `parse` is `parse.ParseSubscription`, `none` its error, and `rewrite` is what `cdn.Rewrite` does
-- when it is called for that body: it reads the ranges and the file with the edge address anew.
module _ (parse : Text → Option (List Node)) (rewrite : FetchedSource → List Node → List Node) where
  -- `parseFetched`
  unfoldable pub parse_fetched : List FetchedSource → Counters → List Node × Counters
  parse_fetched [] st = ([], st)
  parse_fetched (fs ∷ fetched) st =
      let one : List Node × Counters = if fs.not_modified then ([], st) else elim (parse fs.body) [
        | none ↦ ([], st)
        | some parsed ↦ filter_counted (rewrite fs parsed) st
      ] in
      let rest = parse_fetched fetched one.1 in (one.0 ++ rest.0, rest.1)

-- What a fetch uses and changes.
pub record Memory : Type 0 where
  pub cache : ParseCache
  pub counters : Counters
  pub db : Db

-- What package fetch answers in this call: `Fetch`, and `FetchConditional` with the validation headers.
pub record Answers : Type 0 where
  pub fetch : Option (List FetchedSource)
  pub fetch_conditional : Text → Text → Option (List FetchedSource × Bool)

-- `sourceMetaFrom`
unfoldable pub source_meta_from : (Text → Text) → List FetchedSource → SourceMeta
source_meta_from sha_hex [] = record { etag = []; last_modified = []; body_sha = [] }
source_meta_from sha_hex (fs ∷ []) =
    if fs.not_modified
    then record { etag = []; last_modified = []; body_sha = [] }
    else record { etag = fs.etag; last_modified = fs.last_modified; body_sha = sha_hex fs.body }
source_meta_from sha_hex (fs ∷ gs ∷ fetched) = record {
  etag = [];
  last_modified = [];
  body_sha = [];
}

-- The test for a body that has not changed: one body with the hash of last time.
unfoldable pub same_body : (Text → Text) → SourceMeta → Bool → List FetchedSource → Bool
same_body sha_hex meta modified_only [] = false
same_body sha_hex meta modified_only (fs ∷ []) =
    not (is_empty meta.body_sha)
    && (not (modified_only && fs.not_modified) && text_eq (sha_hex fs.body) meta.body_sha)
same_body sha_hex meta modified_only (fs ∷ gs ∷ fetched) = false

module _ (sha_hex : Text → Text) (parse : Text → Option (List Node))
    (rewrite : FetchedSource → List Node → List Node) (limit : ℕ) (url : Text) where
  -- The end of `defaultFetch`: the bodies are parsed, and the cache and the validation headers are set.
  unfoldable pub parse_and_store : List FetchedSource → Memory → Option (List Node) × Memory
  parse_and_store fetched w =
      let r = parse_fetched parse rewrite fetched w.counters in
      (
        some r.0,
        record {
          cache = set_cache limit url r.0 w.cache;
          counters = r.1;
          db = set_source_meta url (source_meta_from sha_hex fetched) w.db;
        },
      )

  -- The cached nodes if `reuse` allows them and there are any, or else what `next` does.
  unfoldable pub reuse_or :
      Bool → (Memory → Option (List Node) × Memory) → Memory → Option (List Node) × Memory
  reuse_or reuse next w =
      if reuse
      then (let c = cached_nodes url w.cache in
          elim c.0 [
            | none ↦ next (record w { cache = c.1 })
            | some nodes ↦ (some nodes, record w { cache = c.1 })
          ])
      else next w

  -- The full fetch. `base` is what `GetSourceMeta` found.
  unfoldable pub full_fetch : Option SourceMeta → Answers → Memory → Option (List Node) × Memory
  full_fetch base answers w = elim answers.fetch [
    | none ↦ (none, w)
    | some fetched ↦
        reuse_or (elim base [ none ↦ false | some meta ↦ same_body sha_hex meta false fetched ])
          (parse_and_store fetched) w
  ]

  -- `defaultFetch`; `none` is its error.
  unfoldable pub default_fetch : Answers → Memory → Option (List Node) × Memory
  default_fetch answers w = elim (get_source_meta url w.db) [
    | none ↦ full_fetch none answers w
    | some meta ↦
        if is_empty meta.etag && is_empty meta.last_modified
        then full_fetch (some meta) answers w
        else elim (answers.fetch_conditional meta.etag meta.last_modified) [
          | none ↦ (none, w)
          | some (fetched, not_mod) ↦
              if not_mod
              then reuse_or true (full_fetch (some meta) answers) w
              else reuse_or (same_body sha_hex meta true fetched) (parse_and_store fetched) w
        ]
  ]
