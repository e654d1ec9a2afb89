-- ===== src/Scheduler/Sources/Faithful.antt =====
-- Which body the cached nodes of a source come from.
use mathlib.Core.Path.{subst}
use sub_manager_vpn.Scheduler.Sources.Counted.{nodes_of}
use sub_manager_vpn.State.Tables.{get_source_meta-set_source_meta, get_source_meta, SourceMeta}
use sub_manager_vpn.Scheduler.Sources.{
  same_body, Answers, full_fetch, default_fetch, reuse_or, Counters, source_meta_from,
  parse_fetched, FetchedSource, parse_and_store, Memory,
}
use sub_manager_vpn.Node.{Node}
use sub_manager_vpn.Base.Map.{lookup_or, lookup-insert, lookup-delete, delete, lookup, Map}
use sub_manager_vpn.Scheduler.Cache.{touch, cached_nodes, ParseCache, set_cache, evict}
use sub_manager_vpn.Base.{
  ◌&&◌, none, refl, append-nil, ap, true, [], length, ◌-◌, ltb, ◌∙◌, Bool, sym, false, arith,
  text_eq, is_empty, ◌∷◌, if◌then◌else◌, some, ◌≡◌, List, ℕ, Option, Text,
}
use mathlib.Core.List.{flat_map}
use sub_manager_vpn.Scheduler.Sources.Counted.{parse_fetched-nodes_of}
use mathlib.Core.Option.{some-injective}

-- Eviction only takes sources out.
lookup-evict :
    (limit : ℕ) (k : Text) (lru : List Text) (m : Map (List Node)) (size : ℕ) (nodes : List Node)
    → lookup k (evict limit lru m size).entries ≡ some nodes
    → lookup k m ≡ some nodes
unfolding evict
lookup-evict limit k [] m size nodes h = h
lookup-evict limit k (u ∷ []) m size nodes h = h
lookup-evict limit k (u ∷ v ∷ lru) m size nodes h =
    go (ltb limit size) _
      (lookup-evict limit k (v ∷ lru) (delete u m) (size - length (lookup_or [] u m)) nodes) h
  where
    back : lookup k (delete u m) ≡ some nodes → lookup k m ≡ some nodes
    back e = ground (arith, lookup-delete u k m, e)

    go :
        (b : Bool) (c : ParseCache)
        → (lookup k c.entries ≡ some nodes → lookup k (delete u m) ≡ some nodes)
        → lookup k (if b then c else record { entries = m; lru = u ∷ v ∷ lru; size = size }).entries
          ≡ some nodes
        → lookup k m ≡ some nodes
    go true c ih e = back (ih e)
    go false c ih e = e

lookup-set_cache :
    (limit : ℕ) (url k : Text) (nodes found : List Node) (c : ParseCache)
    → lookup k (set_cache limit url nodes c).entries ≡ some found
    → (if text_eq url k then some nodes else lookup k c.entries) ≡ some found
unfolding set_cache
lookup-set_cache limit url k nodes found c h =
    sym (lookup-insert url k nodes c.entries) ∙ lookup-evict limit k _ _ _ found h

entries-cached_nodes : (url : Text) (c : ParseCache) → (cached_nodes url c).1.entries ≡ c.entries
unfolding cached_nodes
entries-cached_nodes url c = go (lookup url c.entries)
  where
    go :
        (o : Option (List Node))
        → (elim o as (λ x. Option (List Node) × ParseCache) [
          | none ↦ (none, c)
          | some nodes ↦ (some nodes, record c { lru = touch url c.lru })
        ]).1.entries
          ≡ c.entries
    go none = refl
    go (some nodes) = refl

pub cached_nodes-lookup :
    (url : Text) (c : ParseCache) → (cached_nodes url c).0 ≡ lookup url c.entries
unfolding cached_nodes
cached_nodes-lookup url c = go (lookup url c.entries)
  where
    go :
        (o : Option (List Node))
        → (elim o as (λ x. Option (List Node) × ParseCache) [
          | none ↦ (none, c)
          | some nodes ↦ (some nodes, record c { lru = touch url c.lru })
        ]).0
          ≡ o
    go none = refl
    go (some nodes) = refl

-- Only the rewriting of the body itself matters.
pub nodes_of-constant :
    (parse : Text → Option (List Node)) (rewrite : FetchedSource → List Node → List Node)
    (fs : FetchedSource)
    → nodes_of parse rewrite fs ≡ nodes_of parse (λ _. rewrite fs) fs
unfolding nodes_of
nodes_of-constant parse rewrite fs = refl

pub parse_fetched-one :
    (parse : Text → Option (List Node)) (rewrite : FetchedSource → List Node → List Node)
    (fs : FetchedSource) (c : Counters)
    → (parse_fetched parse rewrite (fs ∷ []) c).0 ≡ nodes_of parse rewrite fs
unfolding flat_map
parse_fetched-one parse rewrite fs c =
    parse_fetched-nodes_of parse rewrite (fs ∷ []) c ∙ append-nil (nodes_of parse rewrite fs)

-- `Past` is said of the rewritings of addresses that were in force when some body was parsed, in this
-- call of the fetch or an earlier one.
module _ (sha_hex : Text → Text) (parse : Text → Option (List Node))
    (Past : (List Node → List Node) → Type 0) where
  -- Nodes that one of the past rewritings gives of a body.
  abbrev pub IsRewritten : List Node → FetchedSource → Type 0
  IsRewritten nodes fs = (r : List Node → List Node) × Past r × (nodes ≡ nodes_of parse (λ _. r) fs)

  -- Cached nodes of a source with a body hash are the nodes of a body with that hash.
  abbrev pub IsFaithful : Memory → Type 0
  IsFaithful w =
      (url : Text) (nodes : List Node) (meta : SourceMeta)
      → lookup url w.cache.entries ≡ some nodes
      → get_source_meta url w.db ≡ some meta
      → is_empty meta.body_sha ≡ false
      → (fs : FetchedSource) × (fs.not_modified ≡ false)
        × (meta.body_sha ≡ sha_hex fs.body)
        × IsRewritten nodes fs

module _ (sha_hex : Text → Text) (parse : Text → Option (List Node))
    (Past : (List Node → List Node) → Type 0) (rewrite : FetchedSource → List Node → List Node)
    (now : (fs : FetchedSource) → Past (rewrite fs)) where
  -- Only a single body that was sent again has a hash.
  source_meta_from-one :
      (fetched : List FetchedSource) (c : Counters)
      → is_empty (source_meta_from sha_hex fetched).body_sha ≡ false
      → (fs : FetchedSource) × (fs.not_modified ≡ false)
        × ((source_meta_from sha_hex fetched).body_sha ≡ sha_hex fs.body)
        × ((parse_fetched parse rewrite fetched c).0 ≡ nodes_of parse rewrite fs)
  unfolding source_meta_from is_empty
  source_meta_from-one [] c h = absurd (ground (arith, h))
  source_meta_from-one (fs ∷ gs ∷ fetched) c h = absurd (ground (arith, h))
  source_meta_from-one (fs ∷ []) c h = go fs.not_modified refl h
    where
      meta : Bool → SourceMeta
      meta b = if b then record { etag = []; last_modified = []; body_sha = [] } else record {
        etag = fs.etag;
        last_modified = fs.last_modified;
        body_sha = sha_hex fs.body;
      }

      go :
          (b : Bool)
          → fs.not_modified ≡ b
          → is_empty (meta b).body_sha ≡ false
          → (gs : FetchedSource) × (gs.not_modified ≡ false)
            × ((meta b).body_sha ≡ sha_hex gs.body)
            × ((parse_fetched parse rewrite (fs ∷ []) c).0 ≡ nodes_of parse rewrite gs)
      go true e k = absurd (ground (arith, k))
      go false e k = (fs, e, refl, parse_fetched-one parse rewrite fs c)

  store-IsFaithful :
      (limit : ℕ) (url : Text) (fetched : List FetchedSource) (w : Memory)
      → IsFaithful sha_hex parse Past w
      → IsFaithful sha_hex parse Past (parse_and_store sha_hex parse rewrite limit url fetched w).1
  unfolding parse_and_store
  store-IsFaithful limit url fetched w h k nodes meta c m e =
      go (text_eq url k) (lookup-set_cache limit url k _ nodes w.cache c)
        (sym (get_source_meta-set_source_meta url k _ w.db) ∙ m)
    where
      out : List Node
      out = (parse_fetched parse rewrite fetched w.counters).0

      go :
          (b : Bool)
          → (if b then some out else lookup k w.cache.entries) ≡ some nodes
          → (if b then some (source_meta_from sha_hex fetched) else get_source_meta k w.db)
            ≡ some meta
          → (fs : FetchedSource) × (fs.not_modified ≡ false)
            × (meta.body_sha ≡ sha_hex fs.body)
            × IsRewritten sha_hex parse Past nodes fs
      go false x y = h k nodes meta x y e
      go true x y =
          let same = some-injective _ _ y in
          let r =
            source_meta_from-one fetched w.counters (ap (λ a. is_empty a.body_sha) same ∙ e) in
          (
            r.0,
            r.1,
            sym (ap (λ a. a.body_sha) same) ∙ r.2,
            (
              rewrite r.0,
              now r.0,
              sym (some-injective _ _ x) ∙ (r.3 ∙ nodes_of-constant parse rewrite r.0),
            ),
          )

  pub used-IsFaithful :
      (url : Text) (w : Memory)
      → IsFaithful sha_hex parse Past w
      → IsFaithful sha_hex parse Past (record w { cache = (cached_nodes url w.cache).1 })
  used-IsFaithful url w h k nodes meta c =
      h k nodes meta (subst (λ es. lookup k es ≡ some nodes) (entries-cached_nodes url w.cache) c)

  reuse_or-IsFaithful :
      (limit : ℕ) (url : Text) (reuse : Bool) (next : Memory → Option (List Node) × Memory)
      (w : Memory)
      → ((v : Memory) → IsFaithful sha_hex parse Past v → IsFaithful sha_hex parse Past (next v).1)
      → IsFaithful sha_hex parse Past w
      → IsFaithful sha_hex parse Past (reuse_or sha_hex parse rewrite limit url reuse next w).1
  unfolding reuse_or
  reuse_or-IsFaithful limit url false next w n h = n w h
  reuse_or-IsFaithful limit url true next w n h = go (cached_nodes url w.cache).0
    where
      used : Memory
      used = record w { cache = (cached_nodes url w.cache).1 }

      go :
          (o : Option (List Node))
          → IsFaithful sha_hex parse Past
              (elim o as (λ x. Option (List Node) × Memory) [
                | none ↦ next used
                | some nodes ↦ (some nodes, used)
              ]).1
      go none = n used (used-IsFaithful url w h)
      go (some nodes) = used-IsFaithful url w h

  full_fetch-IsFaithful :
      (limit : ℕ) (url : Text) (base : Option SourceMeta) (answers : Answers) (w : Memory)
      → IsFaithful sha_hex parse Past w
      → IsFaithful sha_hex parse Past (full_fetch sha_hex parse rewrite limit url base answers w).1
  unfolding full_fetch
  full_fetch-IsFaithful limit url base answers w h = go answers.fetch
    where
      go :
          (o : Option (List FetchedSource))
          → IsFaithful sha_hex parse Past
              (elim o as (λ x. Option (List Node) × Memory) [
                | none ↦ (none, w)
                | some fetched ↦
                    reuse_or sha_hex parse rewrite limit url
                      (elim base [
                        | none ↦ false
                        | some meta ↦ same_body sha_hex meta false fetched
                      ])
                      (parse_and_store sha_hex parse rewrite limit url fetched)
                      w
              ]).1
      go none = h
      go (some fetched) = reuse_or-IsFaithful limit url _ _ w (store-IsFaithful limit url fetched) h

  -- A fetch keeps cached nodes those of a body with the stored hash, as the rewriting of this call or
  -- of an earlier one gives them, whatever the source answers.
  pub default_fetch-IsFaithful :
      (limit : ℕ) (url : Text) (answers : Answers) (w : Memory)
      → IsFaithful sha_hex parse Past w
      → IsFaithful sha_hex parse Past (default_fetch sha_hex parse rewrite limit url answers w).1
  unfolding default_fetch
  default_fetch-IsFaithful limit url answers w h = go (get_source_meta url w.db)
    where
      out : SourceMeta → Option (List FetchedSource × Bool) → Option (List Node) × Memory
      out meta o = elim o [
        | none ↦ (none, w)
        | some (fetched, not_mod) ↦
            if not_mod
            then reuse_or sha_hex parse rewrite limit url true
                (full_fetch sha_hex parse rewrite limit url (some meta) answers) w
            else reuse_or sha_hex parse rewrite limit url (same_body sha_hex meta true fetched)
                (parse_and_store sha_hex parse rewrite limit url fetched) w
      ]

      asked :
          (meta : SourceMeta) (o : Option (List FetchedSource × Bool))
          → IsFaithful sha_hex parse Past (out meta o).1
      asked meta none = h
      asked meta (some (fetched, true)) =
          reuse_or-IsFaithful limit url _ _ w (full_fetch-IsFaithful limit url (some meta) answers)
            h
      asked meta (some (fetched, false)) =
          reuse_or-IsFaithful limit url _ _ w (store-IsFaithful limit url fetched) h

      choose :
          (meta : SourceMeta) (b : Bool)
          → IsFaithful sha_hex parse Past
              (if b
                then full_fetch sha_hex parse rewrite limit url (some meta) answers w
                else out meta (answers.fetch_conditional meta.etag meta.last_modified)).1
      choose meta true = full_fetch-IsFaithful limit url (some meta) answers w h
      choose meta false = asked meta (answers.fetch_conditional meta.etag meta.last_modified)

      go :
          (o : Option SourceMeta)
          → IsFaithful sha_hex parse Past
              (elim o as (λ x. Option (List Node) × Memory) [
                | none ↦ full_fetch sha_hex parse rewrite limit url none answers w
                | some meta ↦
                    if is_empty meta.etag && is_empty meta.last_modified
                    then full_fetch sha_hex parse rewrite limit url (some meta) answers w
                    else out meta (answers.fetch_conditional meta.etag meta.last_modified)
              ]).1
      go none = full_fetch-IsFaithful limit url none answers w h
      go (some meta) = choose meta (is_empty meta.etag && is_empty meta.last_modified)
