-- ===== src/Scheduler/Reconcile/Exact.antt =====
-- Which members a reconciliation leaves.
use sub_manager_vpn.Base.Int.{pos_part, not_positive}
use sub_manager_vpn.Base.Chunks.{each}
use sub_manager_vpn.State.Subscription.Members.{
  one_of-list_subscription, is_member-each-add, is_member-remove_subscription, is_member,
}
use sub_manager_vpn.Select.Defs.{Candidate}
use sub_manager_vpn.State.Subscription.{
  add_subscription, list_subscription, remove_subscription, members,
}
use mathlib.Core.Path.{subst}
use sub_manager_vpn.Scheduler.World.{Config}
use sub_manager_vpn.State.Tables.{node_hash, Db, SubscriptionRow, Codec}
use sub_manager_vpn.Scheduler.Reconcile.{accepted, accepted_hashes, reconcile}
use sub_manager_vpn.Base.{
  ap, ◌||◌, sym, ◌≤◌, ◌↔◌, map, inl, Occurs-filter, ◌⊎◌, inr, filter, Occurs, is_nil, refl, false,
  true, [], text_eq_sym, ◌∙◌, text_eq_iff, ◌∷◌, Bool, text_eq, arith, not, ◌&&◌, ◌≡◌, one_of, ℕ,
  if◌then◌else◌, Text, List,
}

module _ (sel : List Text) where
  -- The second loop of the reconciliation.
  abbrev sweep : SubscriptionRow → Db → Db
  sweep m d = if one_of sel m.node_id then d else remove_subscription m.node_id d

  is_member-sweep :
      (m : SubscriptionRow) (j : Text) (db : Db)
      → is_member j (sweep m db)
        ≡ (is_member j db && not (text_eq m.node_id j && not (one_of sel j)))
  is_member-sweep m j db = go (one_of sel m.node_id) refl
    where
      go :
          (b : Bool)
          → one_of sel m.node_id ≡ b
          → is_member j (if b then db else remove_subscription m.node_id db)
            ≡ (is_member j db && not (text_eq m.node_id j && not (one_of sel j)))
      go true e = ground (arith, text_eq_iff m.node_id j)
      go false e =
          is_member-remove_subscription m.node_id j db ∙ ground (arith, text_eq_iff m.node_id j)

  is_member-each-sweep :
      (ms : List SubscriptionRow) (j : Text) (db : Db)
      → is_member j (each sweep ms db)
        ≡ (is_member j db && not (one_of (members ms) j && not (one_of sel j)))
  unfolding members
  is_member-each-sweep [] j db = unfold one_of in ground arith
  is_member-each-sweep (m ∷ ms) j db =
      is_member-each-sweep ms j (sweep m db)
      ∙ rw (is_member-sweep m j db) (unfold one_of in ground (arith, text_eq_sym m.node_id j))

-- The members by the hashes that the loop collects.
pub is_member-reconcile_hashes :
    (codec : Codec) (config : Config) (selected : List Candidate) (now : ℕ) (db : Db) (j : Text)
    → is_member j (reconcile codec config selected now db) ≡ (
        if is_nil selected
        then is_member j db
        else one_of (accepted_hashes codec config selected) j)
unfolding reconcile
is_member-reconcile_hashes codec config [] now db j = unfold accepted_hashes in refl
is_member-reconcile_hashes codec config (c ∷ selected) now db j =
    let sel = accepted_hashes codec config (c ∷ selected) in
    is_member-each-sweep sel (list_subscription db) j (each (λ h. add_subscription h now) sel db)
    ∙ rw (is_member-each-add sel j now db, one_of-list_subscription db j) ground arith

module _ (codec : Codec) (config : Config) where
  -- There is no bound on the latency, or this one is within it.
  abbrev IsFast : Candidate → Type 0
  IsFast c = (not_positive config.max_ping_ms ≡ true) ⊎ (c.latency_ms ≤ pos_part config.max_ping_ms)

  -- The hash is that of a selected node, not banned and fast enough.
  abbrev pub IsWanted : List Candidate → Text → Type 0
  IsWanted selected j =
      (c : Candidate) × Occurs c selected
      × (node_hash codec c.node ≡ j)
      × (config.is_banned j ≡ false)
      × IsFast c

  accepted-IsFast :
      (c : Candidate)
      → accepted codec config c ≡ true
      → (config.is_banned (node_hash codec c.node) ≡ false) × IsFast c
  unfolding accepted
  accepted-IsFast c h = (ground arith, ground arith)

  accepted-of :
      (c : Candidate)
      → config.is_banned (node_hash codec c.node) ≡ false
      → IsFast c
      → accepted codec config c ≡ true
  unfolding accepted
  accepted-of c b f = ground arith

  pub IsWanted-of_hashes :
      (selected : List Candidate) (j : Text)
      → one_of (accepted_hashes codec config selected) j ≡ true
      → IsWanted selected j
  unfolding accepted_hashes one_of
  IsWanted-of_hashes [] j h = absurd (ground arith)
  IsWanted-of_hashes (c ∷ selected) j h =
      go (accepted codec config c) refl (IsWanted-of_hashes selected j) h
    where
      later : IsWanted selected j → IsWanted (c ∷ selected) j
      later (d, o, same, free, fast) = (d, inr o, same, free, fast)

      here : accepted codec config c ≡ true → node_hash codec c.node ≡ j → IsWanted (c ∷ selected) j
      here a e =
          let (free, fast) = accepted-IsFast c a in
          (c, inl refl, e, subst (λ t. config.is_banned t ≡ false) e free, fast)

      first :
          accepted codec config c ≡ true
          → (t : Bool) → text_eq j (node_hash codec c.node) ≡ t
          → (one_of (accepted_hashes codec config selected) j ≡ true → IsWanted selected j)
          → (t || one_of (accepted_hashes codec config selected) j) ≡ true
          → IsWanted (c ∷ selected) j
      first a true e ih k = here a (sym ((text_eq_iff _ _).0 e))
      first a false e ih k = later (ih k)

      go :
          (b : Bool)
          → accepted codec config c ≡ b
          → (one_of (accepted_hashes codec config selected) j ≡ true → IsWanted selected j)
          → one_of
              (map
                (λ d. node_hash codec d.node)
                (if b
                  then c ∷ filter (accepted codec config) selected
                  else filter (accepted codec config) selected))
              j
            ≡ true
          → IsWanted (c ∷ selected) j
      go true a ih k = first a (text_eq j (node_hash codec c.node)) refl ih k
      go false a ih k = later (ih k)

  one_of-map :
      (j : Text) (c : Candidate)
      → node_hash codec c.node ≡ j
      → (cs : List Candidate) → Occurs c cs
      → one_of (map (λ d. node_hash codec d.node) cs) j ≡ true
  unfolding one_of
  one_of-map j c same [] o = absurd o
  one_of-map j c same (d ∷ cs) (inl e) =
      let equal : text_eq j (node_hash codec d.node) ≡ true =
        (text_eq_iff _ _).1 (sym same ∙ ap (λ x. node_hash codec x.node) e) in
      ground arith
  one_of-map j c same (d ∷ cs) (inr o) = ground (arith, one_of-map j c same cs o)

  pub hashes-IsWanted :
      (selected : List Candidate) (j : Text)
      → IsWanted selected j
      → one_of (accepted_hashes codec config selected) j ≡ true
  unfolding accepted_hashes
  hashes-IsWanted selected j (c, o, same, free, fast) =
      one_of-map j c same (filter (accepted codec config) selected) (
        Occurs-filter (accepted codec config) c selected
          (accepted-of c (subst (λ t. config.is_banned t ≡ false) (sym same) free) fast) o)

-- After a reconciliation with a selection the members are exactly the hashes of selected nodes that
-- are not banned and, if there is a bound on the latency, within it, whoever was a member before;
-- with an empty selection no member comes or goes.
pub is_member-reconcile :
    (codec : Codec) (config : Config) (selected : List Candidate) (now : ℕ) (db : Db) (j : Text)
    → ((is_nil selected ≡ true)
        × (is_member j (reconcile codec config selected now db) ≡ is_member j db))
      ⊎ ((is_nil selected ≡ false)
          × ((is_member j (reconcile codec config selected now db) ≡ true)
              ↔ IsWanted codec config selected j))
is_member-reconcile codec config [] now db j =
    inl (refl, is_member-reconcile_hashes codec config [] now db j)
is_member-reconcile codec config (c ∷ selected) now db j =
    let same = is_member-reconcile_hashes codec config (c ∷ selected) now db j in
    inr (
      refl,
      (
        λ m. IsWanted-of_hashes codec config (c ∷ selected) j (sym same ∙ m),
        λ w. same ∙ hashes-IsWanted codec config (c ∷ selected) j w,
      ),
    )
