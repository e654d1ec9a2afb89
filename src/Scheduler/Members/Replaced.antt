-- ===== src/Scheduler/Members/Replaced.antt =====
-- Who is a member after a dead one was replaced.
use sub_manager_vpn.State.Nodes.{node_by_hash}
use sub_manager_vpn.Node.{Node}
use sub_manager_vpn.Scheduler.Serve.Served.{regenerate_subs-db}
use mathlib.Core.Path.{subst}
use sub_manager_vpn.Scheduler.Serve.{regenerate_subs}
use sub_manager_vpn.Select.Defs.{Candidate}
use sub_manager_vpn.State.Subscription.{add_subscription, remove_subscription}
use sub_manager_vpn.State.Subscription.Members.{
  is_member-add_subscription, is_member-remove_subscription, is_member,
}
use sub_manager_vpn.Scheduler.Members.{replacements, replace_routine, first_alive}
use sub_manager_vpn.Base.{
  [], refl, text_eq_iff, inr, ap, not, sym, inl, if◌then◌else◌, ◌&&◌, ◌⊎◌, ◌||◌, arith, ◌∷◌, true,
  text_eq_refl, Bool, ◌∙◌, text_eq, some, none, false, Option, ◌≡◌, List, ℕ, Text,
}
use sub_manager_vpn.Scheduler.World.{ProbeResult, World, Engine, Config}
use sub_manager_vpn.State.Tables.{node_hash, Db, Codec}

module _ (codec : Codec) (config : Config) where
  first_alive-not_banned :
      (engine : Engine) (cands : List Candidate) (h : Text)
      → first_alive codec config engine cands ≡ some h
      → config.is_banned h ≡ false
  unfolding first_alive
  first_alive-not_banned engine [] h e = absurd (cc)
  first_alive-not_banned engine (c ∷ cands) h e =
      go (engine c.node) (first_alive-not_banned engine cands h) e
    where
      rest : Option Text
      rest = first_alive codec config engine cands

      go :
          (o : Option ProbeResult)
          → (rest ≡ some h → config.is_banned h ≡ false)
          → (elim o as (λ _. Option Text) [
            | none ↦ rest
            | some r ↦
                if r.alive
                then if config.is_banned (node_hash codec c.node)
                  then rest
                  else some (node_hash codec c.node)
                else rest
          ])
            ≡ some h
          → config.is_banned h ≡ false
      go none f e = f e
      go (some r) f e = tested r.alive (config.is_banned (node_hash codec c.node)) refl e
        where
          tested :
              (a b : Bool)
              → config.is_banned (node_hash codec c.node) ≡ b
              → (if a then if b then rest else some (node_hash codec c.node) else rest) ≡ some h
              → config.is_banned h ≡ false
          tested true true eb g = f g
          tested true false eb g =
              let same : node_hash codec c.node ≡ h = cc in ap config.is_banned (sym same) ∙ eb
          tested false b eb g = f g

  -- After the routine the dead one is not a member, every other member still is, and whoever is new
  -- is not banned.
  abbrev pub IsReplaced : Text → Db → Db → Type 0
  IsReplaced dead before after =
      (is_member dead after ≡ false)
      × ((j : Text)
          → ((text_eq dead j ≡ false) → (is_member j before ≡ true) → (is_member j after ≡ true))
            × ((is_member j after ≡ true)
                → (is_member j before ≡ true) ⊎ (config.is_banned j ≡ false)))

  removed : (dead : Text) (db : Db) → IsReplaced dead db (remove_subscription dead db)
  removed dead db = (
    is_member-remove_subscription dead dead db ∙ rw (text_eq_refl dead) ground arith,
    λ j. (
      λ d m. is_member-remove_subscription dead j db ∙ ground arith,
      λ m. inl (let e = is_member-remove_subscription dead j db in ground arith),
    ),
  )

  swapped :
      (dead h : Text) (now : ℕ) (db : Db)
      → config.is_banned h ≡ false
      → IsReplaced dead db (remove_subscription dead (add_subscription h now db))
  swapped dead h now db free = (
    is_member-remove_subscription dead dead (add_subscription h now db)
        ∙ rw (text_eq_refl dead) ground arith,
    λ j. (
      λ d m.
          is_member-remove_subscription dead j (add_subscription h now db)
          ∙ rw (is_member-add_subscription h j now db) ground arith,
      λ m.
          let e : is_member j (remove_subscription dead (add_subscription h now db))
              ≡ ((is_member j db || text_eq h j) && not (text_eq dead j)) =
            is_member-remove_subscription dead j (add_subscription h now db)
            ∙ rw (is_member-add_subscription h j now db) refl in
          case j (is_member j db) refl (text_eq h j) refl (sym e ∙ m),
    ),
  )
    where
      case :
          (j : Text) (b : Bool)
          → is_member j db ≡ b
          → (d : Bool) → text_eq h j ≡ d
          → ((b || d) && not (text_eq dead j)) ≡ true
          → (is_member j db ≡ true) ⊎ (config.is_banned j ≡ false)
      case j true eb d ed g = inl eb
      case j false eb true ed g = inr (ap config.is_banned (sym ((text_eq_iff h j).0 ed)) ∙ free)
      case j false eb false ed g = absurd (ground arith)

  -- Whatever the engine answers, after `ReplaceRoutine` the dead hash is no longer a member, every
  -- other member stays, and whoever is a new member is not banned.
  pub replace_routine-IsReplaced :
      (engine : Engine) (dead : Text) (now : ℕ) (w : World)
      → IsReplaced dead w.db (replace_routine codec config engine dead now w).db
  unfolding replace_routine
  replace_routine-IsReplaced engine dead now w = go (node_by_hash codec dead w.db)
    where
      found : Option Text → World
      found o = elim o [
        | none ↦ regenerate_subs codec config (record w { db = remove_subscription dead w.db })
        | some h ↦
            regenerate_subs codec config
              (record w { db = remove_subscription dead (add_subscription h now w.db) })
      ]

      swap :
          (o : Option Text)
          → ((h : Text) → o ≡ some h → config.is_banned h ≡ false)
          → IsReplaced dead w.db (found o).db
      swap none f =
          subst (IsReplaced dead w.db) (sym (regenerate_subs-db codec config _)) (removed dead w.db)
      swap (some h) f =
          subst (IsReplaced dead w.db) (sym (regenerate_subs-db codec config _))
            (swapped dead h now w.db (f h refl))

      go :
          (o : Option Node)
          → IsReplaced dead w.db
              (elim o as (λ _. World) [
                | none ↦ record w { db = remove_subscription dead w.db }
                | some n ↦
                    found
                      (first_alive codec config engine (replacements codec config n.country w.db))
              ]).db
      go none = removed dead w.db
      go (some n) =
          swap (first_alive codec config engine (replacements codec config n.country w.db))
            (first_alive-not_banned engine (replacements codec config n.country w.db))
