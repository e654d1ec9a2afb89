-- ===== src/State/Subscription/Members.antt =====
-- Who is a member after an operation.
use sub_manager_vpn.Base.Chunks.{each}
use sub_manager_vpn.State.Tables.{SubscriptionRow, Db}
use sub_manager_vpn.Base.Sort.{stable_sort, insert_sorted}
use sub_manager_vpn.State.Subscription.{
  remove_subscription, members, list_subscription, add_subscription,
}
use sub_manager_vpn.Base.{
  one_of-append, text_eq_sym, false, true, refl, text_eq_iff, if◌then◌else◌, [], ◌∙◌, text_eq,
  arith, ap, ◌∷◌, ◌∷◌, ◌||◌, not, ◌&&◌, ◌≡◌, filter, Bool, ◌++◌, ℕ, List, one_of, Text,
}

-- `h` is a member of the subscription.
abbrev pub is_member : Text → Db → Bool
is_member h db = one_of (members db.subscription) h

members-append :
    (subs more : List SubscriptionRow) → members (subs ++ more) ≡ members subs ++ members more
unfolding members
members-append [] more = refl
members-append (s ∷ subs) more = ap (λ r. s.node_id ∷ r) (members-append subs more)

pub is_member-add_subscription :
    (h j : Text) (now : ℕ) (db : Db)
    → is_member j (add_subscription h now db) ≡ (is_member j db || text_eq h j)
unfolding add_subscription
is_member-add_subscription h j now db = go (one_of (members db.subscription) h) refl
  where
    row : SubscriptionRow
    row = record {
      node_id = h;
      added_at = now;
      valid_checked_at = 0;
      ping_latency_ms = 0;
      ping_checked_at = 0;
    }

    go :
        (b : Bool)
        → one_of (members db.subscription) h ≡ b
        → is_member j (if b then db else record db { subscription = db.subscription ++ row ∷ [] })
          ≡ (is_member j db || text_eq h j)
    go true e = ground (arith, text_eq_iff h j)
    go false e = rw (members-append db.subscription (row ∷ [])) (
        one_of-append (members db.subscription) (members (row ∷ [])) j
        ∙ unfold one_of members in ground (arith, text_eq_sym h j))

one_of-members-filter :
    (h j : Text) (subs : List SubscriptionRow)
    → one_of (members (filter (λ s. not (text_eq s.node_id h)) subs)) j
      ≡ (one_of (members subs) j && not (text_eq h j))
unfolding members one_of
one_of-members-filter h j [] = refl
one_of-members-filter h j (s ∷ subs) =
    go (text_eq s.node_id h) refl (one_of-members-filter h j subs)
  where
    rest : List SubscriptionRow
    rest = filter (λ t. not (text_eq t.node_id h)) subs

    go :
        (b : Bool)
        → text_eq s.node_id h ≡ b
        → one_of (members rest) j ≡ (one_of (members subs) j && not (text_eq h j))
        → one_of (members (if not b then s ∷ rest else rest)) j
          ≡ ((text_eq j s.node_id || one_of (members subs) j) && not (text_eq h j))
    go true e ih = ground (
      arith,
      text_eq_iff s.node_id h,
      text_eq_iff s.node_id j,
      text_eq_iff h j,
      text_eq_sym s.node_id j,
    )
    go false e ih = ground (
      arith,
      text_eq_iff s.node_id h,
      text_eq_iff s.node_id j,
      text_eq_iff h j,
      text_eq_sym s.node_id j,
    )

pub is_member-remove_subscription :
    (h j : Text) (db : Db)
    → is_member j (remove_subscription h db) ≡ (is_member j db && not (text_eq h j))
unfolding remove_subscription
is_member-remove_subscription h j db = one_of-members-filter h j db.subscription

pub is_member-each-add :
    (hs : List Text) (j : Text) (now : ℕ) (db : Db)
    → is_member j (each (λ h. add_subscription h now) hs db) ≡ (is_member j db || one_of hs j)
unfolding one_of
is_member-each-add [] j now db = ground arith
is_member-each-add (h ∷ hs) j now db =
    is_member-each-add hs j now (add_subscription h now db)
    ∙ rw (is_member-add_subscription h j now db) ground (arith, text_eq_sym h j)

-- Sorting the rows by time forgets no member and makes none.
one_of-insert_sorted :
    (less : SubscriptionRow → SubscriptionRow → Bool) (s : SubscriptionRow)
    (subs : List SubscriptionRow) (j : Text)
    → one_of (members (insert_sorted less s subs)) j ≡ one_of (members (s ∷ subs)) j
unfolding insert_sorted members one_of
one_of-insert_sorted less s [] j = refl
one_of-insert_sorted less s (t ∷ subs) j = ground (arith, one_of-insert_sorted less s subs j)

one_of-stable_sort :
    (less : SubscriptionRow → SubscriptionRow → Bool) (subs : List SubscriptionRow) (j : Text)
    → one_of (members (stable_sort less subs)) j ≡ one_of (members subs) j
unfolding stable_sort members one_of
one_of-stable_sort less [] j = refl
one_of-stable_sort less (s ∷ subs) j =
    one_of-insert_sorted less s (stable_sort less subs) j
    ∙ ground (arith, one_of-stable_sort less subs j)

pub one_of-list_subscription :
    (db : Db) (j : Text) → one_of (members (list_subscription db)) j ≡ is_member j db
unfolding list_subscription
one_of-list_subscription db j = one_of-stable_sort _ db.subscription j
