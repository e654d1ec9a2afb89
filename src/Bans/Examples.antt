-- ===== src/Bans/Examples.antt =====
-- The theorems at concrete stores.
use sub_manager_vpn.Base.{
  not, ◌&&◌, text_eq, refl, ◌||◌, is_empty, some, one_of, [], Text, ◌≡◌, ◌∷◌, true, codes,
}
use sub_manager_vpn.Bans.{load, new, has, add, Store}
use sub_manager_vpn.Bans.Synced.{add-IsSynced, IsSynced, IsProper}

abbrev sample : Store
sample = record { set = codes "a" ∷ []; file = some (codes "a" ∷ []) }

sample-IsSynced : IsSynced sample
unfolding has new load
sample-IsSynced j = unfold one_of is_empty in refl

add-IsSynced_example :
    (IsProper (add true (codes "b") sample).1 × IsSynced (add true (codes "b") sample).1)
    × ((j : Text)
        → has j (add true (codes "b") sample).1
          ≡ (has j sample || (text_eq j (codes "b") && not (is_empty (codes "b")))))
add-IsSynced_example =
    add-IsSynced (codes "b") sample (unfold one_of text_eq in refl) sample-IsSynced
