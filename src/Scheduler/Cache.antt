-- ===== src/Scheduler/Cache.antt =====
-- The parse cache of the scheduler: the parsed nodes of the sources used last.
pub mod Sizes
pub mod Bounded
pub mod Reached
use sub_manager_vpn.Node.{Node}
use sub_manager_vpn.Base.{
  ltb, ◌+◌, some, length, none, ◌-◌, ◌++◌, text_eq, one_of, ◌∷◌, if◌then◌else◌, Option, List, ℕ, [],
  Text,
}
use sub_manager_vpn.Base.Map.{lookup_or, insert, lookup, delete, Map}

-- `lru` has the least recently used source first, and `size` is the number of all cached nodes.
pub record ParseCache : Type 0 where
  pub entries : Map (List Node)
  pub lru : List Text
  pub size : ℕ

abbrev pub empty_cache : ParseCache
empty_cache = record { entries = []; lru = []; size = 0 }

abbrev pub max_parse_cache_nodes : ℕ
max_parse_cache_nodes = 50000

-- The loop of `removeCacheLRU`
unfoldable pub remove_first : Text → List Text → List Text
remove_first url [] = []
remove_first url (u ∷ lru) = if text_eq u url then lru else u ∷ remove_first url lru

-- `touchCacheLRU`
unfoldable pub touch : Text → List Text → List Text
touch url lru = if one_of lru url then remove_first url lru ++ url ∷ [] else lru

-- `cachedNodes`
unfoldable pub cached_nodes : Text → ParseCache → Option (List Node) × ParseCache
cached_nodes url c = elim (lookup url c.entries) [
  | none ↦ (none, c)
  | some nodes ↦ (some nodes, record c { lru = touch url c.lru })
]

-- The loop of `setCache` that drops the oldest entries; `limit` is `maxParseCacheNodes`.
unfoldable pub evict : ℕ → List Text → Map (List Node) → ℕ → ParseCache
evict limit [] entries size = record { entries = entries; lru = []; size = size }
evict limit (u ∷ []) entries size = record { entries = entries; lru = u ∷ []; size = size }
evict limit (u ∷ v ∷ lru) entries size =
    let rest = evict limit (v ∷ lru) (delete u entries) (size - length (lookup_or [] u entries)) in
    if ltb limit size then rest else record { entries = entries; lru = u ∷ v ∷ lru; size = size }

-- `setCache`
unfoldable pub set_cache : ℕ → Text → List Node → ParseCache → ParseCache
set_cache limit url nodes c =
    let old = lookup url c.entries in
    let size : ℕ = elim old [ none ↦ c.size | some o ↦ c.size - length o ] in
    let lru : List Text = elim old [ none ↦ c.lru | some o ↦ remove_first url c.lru ] in
    evict limit (lru ++ url ∷ []) (insert url nodes c.entries) (size + length nodes)
