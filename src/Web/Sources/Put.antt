-- ===== src/Web/Sources/Put.antt =====
-- What a change of a source leaves, accepted or refused.
use mathlib.Core.Path.{subst}
use sub_manager_vpn.Web.Sources.Handled.{removed_failed, add-Refines, remove-Refines}
use sub_manager_vpn.Base.Strings.Trim.{trim_space-IsTrimmed, IsTrimmed}
use sub_manager_vpn.Registry.Views.{id-url, view}
use sub_manager_vpn.Registry.{add_source, read, is_https, list_sources, Source, remove_source}
use sub_manager_vpn.Web.Sources.{reply, Reply, old_url, source_with, handle_put_source}
use sub_manager_vpn.Registry.Spec.{adds, removes, promised, Whitelist}
use sub_manager_vpn.Base.{
  refl, false, text_eq_iff, ap, ◌∙◌, sym, find, ◌∷◌, not, arith, [], none, is_empty, text_eq,
  if◌then◌else◌, Bool, trim_space, any, ◌≡◌, some, All, true, ℕ, Option, List, Text,
}
use sub_manager_vpn.Registry.File.{read-IsStored, IsStored, IsUrlParser}
use sub_manager_vpn.Net.{Network}

module _ (net : Network) where
  -- The source is taken out and the new address comes to the end. If that is refused, the old address
  -- comes to the end, switched on.
  unfoldable pub promised_put : Text → Text → Whitelist → ℕ × Whitelist
  promised_put id body w =
      let without = promised net (removes id) w in
      let renewed = promised net (adds (trim_space body)) without.1 in
      if is_empty (trim_space body)
      then (400, w)
      else if not without.0
      then (404, w)
      else if not renewed.0
      then (400, (promised net (adds id) renewed.1).1)
      else (200, renewed.1)

  module _ (law : IsUrlParser net) where
    -- A listed source has its address as its id.
    first-IsStored :
        (id : Text) (ss : List Source)
        → All (IsStored net) ss
        → any (λ s. text_eq s.id id) ss ≡ true
        → (elim (source_with net id ss) as (λ o. Text) [ none ↦ [] | some s ↦ s.url ] ≡ id)
          × (is_https net id ≡ true)
          × IsTrimmed id
    unfolding source_with
    first-IsStored id [] h e = absurd (ground (arith, e))
    first-IsStored id (s ∷ ss) (hs, h) e = go (text_eq s.id id) refl (first-IsStored id ss h)
      where
        go :
            (b : Bool)
            → text_eq s.id id ≡ b
            → (any (λ t. text_eq t.id id) ss ≡ true
                → (elim (source_with net id ss) as (λ o. Text) [ none ↦ [] | some t ↦ t.url ] ≡ id)
                  × (is_https net id ≡ true)
                  × IsTrimmed id)
            → (elim (if b then some s else find (λ t. text_eq t.id id) ss) as (λ o. Text) [
              | none ↦ []
              | some t ↦ t.url
            ]
                ≡ id)
              × (is_https net id ≡ true)
              × IsTrimmed id
        go true q ih =
            let same : s.url ≡ id = sym (id-url net s hs) ∙ (text_eq_iff s.id id).0 q in
            (same, subst (λ x. is_https net x ≡ true) same hs.1, subst IsTrimmed same hs.2)
        go false q ih = ih (ground (arith, e, q))

    removed_old :
        (id : Text) (file : Option Text)
        → (remove_source net true id file).0 ≡ true
        → (old_url net id file ≡ id) × (is_https net id ≡ true) × IsTrimmed id
    unfolding remove_source old_url list_sources
    removed_old id file h =
        first-IsStored id (read net file) (read-IsStored net file) (ground (arith, h))

    pub handle_put_source-Refines :
        (id body : Text) (file : Option Text)
        → ((handle_put_source net (true, true, true) id (some body) file).status
            ≡ (promised_put id body (view net file)).0)
          × (view net (handle_put_source net (true, true, true) id (some body) file).file
              ≡ (promised_put id body (view net file)).1)
    unfolding handle_put_source promised_put
    handle_put_source-Refines id body file =
        subst
          (λ q.
            Holds (left (is_empty new_url) removed.0 added.0)
              (right (is_empty new_url) without.0 q))
          renewed_same
          (subst
            (λ p.
              Holds (left (is_empty new_url) removed.0 added.0)
                (right (is_empty new_url) p added.0))
            one.0 (go (is_empty new_url) removed.0 added.0 refl))
      where
        new_url : Text
        new_url = trim_space body

        removed : Bool × Option Text
        removed = remove_source net true id file

        added : Bool × Option Text
        added = add_source net true new_url removed.1

        restored : Bool × Option Text
        restored = add_source net true (old_url net id file) added.1

        without : Bool × Whitelist
        without = promised net (removes id) (view net file)

        renewed : Bool × Whitelist
        renewed = promised net (adds new_url) without.1

        one : (removed.0 ≡ without.0) × (view net removed.1 ≡ without.1)
        one = remove-Refines net law id file

        two :
            (added.0 ≡ (promised net (adds new_url) (view net removed.1)).0)
            × (view net added.1 ≡ (promised net (adds new_url) (view net removed.1)).1)
        two = add-Refines net law new_url removed.1 (trim_space-IsTrimmed body)

        renewed_same : added.0 ≡ renewed.0
        renewed_same = two.0 ∙ ap (λ v. (promised net (adds new_url) v).0) one.1

        renewed_view : view net added.1 ≡ renewed.1
        renewed_view = two.1 ∙ ap (λ v. (promised net (adds new_url) v).1) one.1

        left : Bool → Bool → Bool → Reply
        left e r a =
            if e
            then reply 400 file
            else if not r
            then reply 404 removed.1
            else if not a
            then reply 400 (if not (is_empty (old_url net id file)) then restored.1 else added.1)
            else reply 200 added.1

        right : Bool → Bool → Bool → ℕ × Whitelist
        right e p q =
            if e
            then (400, view net file)
            else if not p
            then (404, view net file)
            else if not q
            then (400, (promised net (adds id) renewed.1).1)
            else (200, renewed.1)

        Holds : Reply → ℕ × Whitelist → Type 0
        Holds r p = (r.status ≡ p.0) × (view net r.file ≡ p.1)

        back :
            removed.0 ≡ true
            → view net (if not (is_empty (old_url net id file)) then restored.1 else added.1)
              ≡ (promised net (adds id) renewed.1).1
        back h =
            let old = removed_old id file h in
            let full : is_empty (old_url net id file) ≡ false =
              ap is_empty old.0 ∙ law.not_empty id old.1 in
            let third =
              add-Refines net law (old_url net id file) added.1
                (subst IsTrimmed (sym old.0) old.2) in
            ap (λ b. view net (if not b then restored.1 else added.1)) full
            ∙ (third.1
                ∙ (ap (λ u. (promised net (adds u) (view net added.1)).1) old.0
                    ∙ ap (λ v. (promised net (adds id) v).1) renewed_view))

        go : (e r a : Bool) → removed.0 ≡ r → Holds (left e r a) (right e r a)
        go true r a h = (refl, refl)
        go false false a h = (refl, ap (view net) (removed_failed net law id file h))
        go false true false h = (refl, back h)
        go false true true h = (refl, renewed_view)
