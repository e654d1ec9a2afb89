-- ===== src/Scheduler/Sources/Transparent.antt =====
-- What `defaultFetch` gives, from the cache or not.
use sub_manager_vpn.Scheduler.Cache.{cached_nodes}
use sub_manager_vpn.Base.Map.{lookup}
use sub_manager_vpn.Scheduler.Sources.Faithful.{
  nodes_of-constant, used-IsFaithful, cached_nodes-lookup, parse_fetched-one, IsFaithful,
}
use sub_manager_vpn.Scheduler.Sources.Counted.{nodes_of}
use sub_manager_vpn.State.Tables.{get_source_meta, SourceMeta}
use sub_manager_vpn.Scheduler.Sources.{
  full_fetch, default_fetch, same_body, parse_and_store, Memory, Answers, reuse_or, FetchedSource,
}
use sub_manager_vpn.Node.{Node}
use sub_manager_vpn.Base.{
  ◌&&◌, inr, inl, if◌then◌else◌, arith, text_eq_iff, ◌∙◌, sym, none, ◌⊎◌, is_empty, ap, [], ◌∷◌,
  true, refl, some, false, Bool, ℕ, ◌≡◌, List, Option, Text,
}

module _ (parse : Text → Option (List Node)) (Past : (List Node → List Node) → Type 0) where
  -- The nodes are those of the file, as a past rewriting gives them.
  abbrev pub Gives : FetchedSource → Option (List Node) → Type 0
  Gives fs o = (r : List Node → List Node) × Past r × (o ≡ some (nodes_of parse (λ _. r) fs))

module _ (sha_hex : Text → Text) (parse : Text → Option (List Node))
    (Past : (List Node → List Node) → Type 0) (rewrite : FetchedSource → List Node → List Node)
    (now : (fs : FetchedSource) → Past (rewrite fs)) where
  -- The step a source takes when the nodes it has are those of the file.
  reuse_or-Gives :
      (limit : ℕ) (url : Text) (fs : FetchedSource) (reuse : Bool)
      (next : Memory → Option (List Node) × Memory) (w : Memory)
      → IsFaithful sha_hex parse Past w
      → ((v : Memory)
          → IsFaithful sha_hex parse Past v
          → v.db ≡ w.db
          → Gives parse Past fs (next v).0)
      → (reuse ≡ true
          → (old : List Node) → lookup url w.cache.entries ≡ some old
          → Gives parse Past fs (some old))
      → Gives parse Past fs (reuse_or sha_hex parse rewrite limit url reuse next w).0
  unfolding reuse_or
  reuse_or-Gives limit url fs false next w f n h = n w f refl
  reuse_or-Gives limit url fs true next w f n h =
      go (cached_nodes url w.cache).0 (cached_nodes-lookup url w.cache)
    where
      used : Memory
      used = record w { cache = (cached_nodes url w.cache).1 }

      go :
          (o : Option (List Node))
          → o ≡ lookup url w.cache.entries
          → Gives parse Past fs
              (elim o as (λ x. Option (List Node) × Memory) [
                | none ↦ next used
                | some old ↦ (some old, used)
              ]).0
      go none e = n used (used-IsFaithful sha_hex parse Past rewrite now url w f) refl
      go (some old) e = h refl old (sym e)

  -- The server has the file `fs`. It sends it, or it answers 304 when the file has the stored hash.
  abbrev pub Serves : FetchedSource → Answers → Option SourceMeta → Type 0
  Serves fs answers base =
      (fs.not_modified ≡ false)
      × (answers.fetch ≡ some (fs ∷ []))
      × ((meta : SourceMeta)
          → base ≡ some meta
          → (answers.fetch_conditional meta.etag meta.last_modified ≡ some (fs ∷ [], false))
            ⊎ ((fetched : List FetchedSource) × (answers.fetch_conditional meta.etag
                    meta.last_modified
                  ≡ some (fetched, true))
                × (meta.body_sha ≡ sha_hex fs.body)
                × (is_empty meta.body_sha ≡ false)))

  module _ (collision_free : (a b : Text) → sha_hex a ≡ sha_hex b → a ≡ b) (limit : ℕ) (url : Text)
      (fs : FetchedSource) (modified : fs.not_modified ≡ false) where
    nodes_of-body :
        (gs : FetchedSource)
        → gs.not_modified ≡ false
        → gs.body ≡ fs.body
        → (r : List Node → List Node) → nodes_of parse (λ _. r) gs ≡ nodes_of parse (λ _. r) fs
    unfolding nodes_of
    nodes_of-body gs e b r = rw (e, modified, b) refl

    stored-nodes :
        (w : Memory) (meta : SourceMeta)
        → IsFaithful sha_hex parse Past w
        → get_source_meta url w.db ≡ some meta
        → meta.body_sha ≡ sha_hex fs.body
        → is_empty meta.body_sha ≡ false
        → (old : List Node) → lookup url w.cache.entries ≡ some old
        → Gives parse Past fs (some old)
    stored-nodes w meta h m s e old o =
        let r = h url old meta o m e in
        let (past, was, same) = r.3 in
        (
          past,
          was,
          ap some
              (same ∙ nodes_of-body r.0 r.1 (collision_free r.0.body fs.body (sym r.2 ∙ s)) past),
        )

    store-nodes :
        (v : Memory)
        → Gives parse Past fs (parse_and_store sha_hex parse rewrite limit url (fs ∷ []) v).0
    unfolding parse_and_store
    store-nodes v = (
      rewrite fs,
      now fs,
      ap some (parse_fetched-one parse rewrite fs v.counters ∙ nodes_of-constant parse rewrite fs),
    )

    same_body-hash :
        (meta : SourceMeta) (b : Bool)
        → same_body sha_hex meta b (fs ∷ []) ≡ true
        → (meta.body_sha ≡ sha_hex fs.body) × (is_empty meta.body_sha ≡ false)
    unfolding same_body
    same_body-hash meta b h =
        (sym ((text_eq_iff (sha_hex fs.body) meta.body_sha).0 (ground arith)), ground arith)

    compared-nodes :
        (w : Memory) (meta : SourceMeta) (b : Bool)
        → IsFaithful sha_hex parse Past w
        → get_source_meta url w.db ≡ some meta
        → Gives parse Past fs
            (reuse_or sha_hex parse rewrite limit url
              (same_body sha_hex meta b (fs ∷ []))
              (parse_and_store sha_hex parse rewrite limit url (fs ∷ []))
              w).0
    compared-nodes w meta b h m =
        reuse_or-Gives limit url fs _ _ w h (λ v f e. store-nodes v)
          (λ s old o. let k = same_body-hash meta b s in stored-nodes w meta h m k.0 k.1 old o)

    full_fetch-nodes :
        (answers : Answers) (w : Memory) (base : Option SourceMeta)
        → IsFaithful sha_hex parse Past w
        → get_source_meta url w.db ≡ base
        → answers.fetch ≡ some (fs ∷ [])
        → Gives parse Past fs (full_fetch sha_hex parse rewrite limit url base answers w).0
    unfolding full_fetch
    full_fetch-nodes answers w none h m f = rw f (unfold reuse_or in store-nodes w)
    full_fetch-nodes answers w (some meta) h m f = rw f (compared-nodes w meta false h m)

  -- For a hash without collisions, a source whose cached nodes are those of a body with the stored
  -- hash gives the nodes of the file that the server has now, from the cache or not, as the rewriting
  -- of this call or of an earlier one gives them. The server may answer 304 only while the file has
  -- the stored hash; the rewriting may change at any time.
  pub default_fetch-nodes :
      (limit : ℕ) (url : Text) (fs : FetchedSource) (answers : Answers) (w : Memory)
      → ((a b : Text) → sha_hex a ≡ sha_hex b → a ≡ b)
      → IsFaithful sha_hex parse Past w
      → Serves fs answers (get_source_meta url w.db)
      → Gives parse Past fs (default_fetch sha_hex parse rewrite limit url answers w).0
  unfolding default_fetch
  default_fetch-nodes limit url fs answers w injective h (modified, full, asked) =
      go (get_source_meta url w.db) refl
    where
      out : SourceMeta → Option (List FetchedSource × Bool) → Option (List Node) × Memory
      out meta o = elim o [
        | none ↦ (none, w)
        | some (fetched, not_mod) ↦
            if not_mod
            then reuse_or sha_hex parse rewrite limit url true
                (full_fetch sha_hex parse rewrite limit url (some meta) answers) w
            else reuse_or sha_hex parse rewrite limit url (same_body sha_hex meta true fetched)
                (parse_and_store sha_hex parse rewrite limit url fetched) w
      ]

      whole :
          (base : Option SourceMeta)
          → get_source_meta url w.db ≡ base
          → Gives parse Past fs (full_fetch sha_hex parse rewrite limit url base answers w).0
      whole base m = full_fetch-nodes injective limit url fs modified answers w base h m full

      conditional :
          (meta : SourceMeta)
          → get_source_meta url w.db ≡ some meta
          → Gives parse Past fs
              (out meta (answers.fetch_conditional meta.etag meta.last_modified)).0
      conditional meta m = elim (asked meta m) [
        | inl sent ↦ rw sent (compared-nodes injective limit url fs modified w meta true h m)
        | inr (fetched, sent, same, full_sha) ↦ rw sent (
            reuse_or-Gives limit url fs true _ w h
              (λ v f e.
                full_fetch-nodes injective limit url fs modified answers v (some meta) f
                  (ap (get_source_meta url) e ∙ m) full)
              (λ s old o.
                stored-nodes injective limit url fs modified w meta h m same full_sha old o))
      ]

      go :
          (o : Option SourceMeta)
          → get_source_meta url w.db ≡ o
          → Gives parse Past fs
              (elim o as (λ x. Option (List Node) × Memory) [
                | none ↦ full_fetch sha_hex parse rewrite limit url none answers w
                | some meta ↦
                    if is_empty meta.etag && is_empty meta.last_modified
                    then full_fetch sha_hex parse rewrite limit url (some meta) answers w
                    else out meta (answers.fetch_conditional meta.etag meta.last_modified)
              ]).0
      go none m = whole none m
      go (some meta) m = choose (is_empty meta.etag && is_empty meta.last_modified)
        where
          choose :
              (b : Bool)
              → Gives parse Past fs
                  (if b
                    then full_fetch sha_hex parse rewrite limit url (some meta) answers w
                    else out meta (answers.fetch_conditional meta.etag meta.last_modified)).0
          choose true = whole (some meta) m
          choose false = conditional meta m
