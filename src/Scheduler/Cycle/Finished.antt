-- ===== src/Scheduler/Cycle/Finished.antt =====
-- The members when a cycle is over.
use sub_manager_vpn.Scheduler.Reconcile.Exact.{
  IsWanted-of_hashes, hashes-IsWanted, IsWanted, is_member-reconcile_hashes,
}
use sub_manager_vpn.Scheduler.Serve.Served.{regenerate_subs-db}
use sub_manager_vpn.Scheduler.Serve.{regenerate_subs}
use sub_manager_vpn.State.Retention.{default_retention, prune}
use sub_manager_vpn.State.Subscription.Members.{one_of-list_subscription, is_member}
use sub_manager_vpn.Scheduler.Cycle.{finish}
use sub_manager_vpn.Scheduler.Reconcile.{seed_subscription, reconcile, accepted_hashes}
use sub_manager_vpn.Select.Defs.{select, apply_degrade, Candidate}
use sub_manager_vpn.Scheduler.World.{World, Config}
use sub_manager_vpn.Node.{Node}
use sub_manager_vpn.Base.{
  ◌↔◌, sym, if◌then◌else◌, Bool, ◌∙◌, ap, refl, [], ◌∷◌, arith, false, is_nil, ℕ, true, ◌≡◌, one_of,
  Text, List,
}
use sub_manager_vpn.State.Subscription.{list_subscription, members}
use sub_manager_vpn.State.Tables.{Db, node_hash, SubscriptionRow, Codec}

member_not_nil :
    (subs : List SubscriptionRow) (h : Text) → one_of (members subs) h ≡ true → is_nil subs ≡ false
unfolding members
member_not_nil [] h e = absurd (unfold one_of in ground arith)
member_not_nil (s ∷ subs) h e = refl

module _ (codec : Codec) (norm_name : Node → Text) (config : Config) where
  accepted_not_nil :
      (selected : List Candidate) (h : Text)
      → one_of (accepted_hashes codec config selected) h ≡ true
      → is_nil selected ≡ false
  unfolding accepted_hashes
  accepted_not_nil [] h e = absurd (unfold one_of in ground arith)
  accepted_not_nil (c ∷ selected) h e = refl

  -- What a cycle selects of its candidates.
  abbrev pub chosen : List Candidate → List Candidate
  chosen cands = apply_degrade (node_hash codec) (select cands config.top_n) cands config.degrade_ms

  -- The members by the hashes that the loop collects.
  is_member-finish_hashes :
      (cycle now : ℕ) (cands : List Candidate) (w : World) (h j : Text)
      → one_of (accepted_hashes codec config (chosen cands)) h ≡ true
      → is_member j (finish codec norm_name config cycle now cands w).db
        ≡ one_of (accepted_hashes codec config (chosen cands)) j
  unfolding finish
  is_member-finish_hashes cycle now cands w h j e = go (is_nil (list_subscription served.db)) refl
    where
      pruned : Db
      pruned = prune (record default_retention { dead_cycles = config.dead_cycles }) cycle now w.db

      served : World
      served =
          regenerate_subs codec config
            (record w { db = reconcile codec config (chosen cands) now pruned })

      exact :
          (i : Text)
          → is_member i served.db ≡ one_of (accepted_hashes codec config (chosen cands)) i
      exact i =
          ap (is_member i) (regenerate_subs-db codec config _)
          ∙ (is_member-reconcile_hashes codec config (chosen cands) now pruned i
              ∙ rw (accepted_not_nil (chosen cands) h e) refl)

      full : is_nil (list_subscription served.db) ≡ false
      full =
          member_not_nil (list_subscription served.db) h
            (one_of-list_subscription served.db h ∙ (exact h ∙ e))

      go :
          (b : Bool)
          → is_nil (list_subscription served.db) ≡ b
          → is_member j (if b then seed_subscription codec config now served else served).db
            ≡ one_of (accepted_hashes codec config (chosen cands)) j
      go true b = let clash : true ≡ false = sym b ∙ full in absurd (ground arith)
      go false b = exact j

  -- If a cycle selects a node that is not banned and, if there is a bound on the latency, within it,
  -- then at its end the members are exactly the hashes of such selected nodes, whatever was pruned
  -- and whoever was a member before, and nothing is seeded.
  pub is_member-finish :
      (cycle now : ℕ) (cands : List Candidate) (w : World) (h j : Text)
      → IsWanted codec config (chosen cands) h
      → (is_member j (finish codec norm_name config cycle now cands w).db ≡ true)
        ↔ IsWanted codec config (chosen cands) j
  is_member-finish cycle now cands w h j wanted =
      let same =
        is_member-finish_hashes cycle now cands w h j
          (hashes-IsWanted codec config (chosen cands) h wanted) in
      (
        λ m. IsWanted-of_hashes codec config (chosen cands) j (sym same ∙ m),
        λ k. same ∙ hashes-IsWanted codec config (chosen cands) j k,
      )
