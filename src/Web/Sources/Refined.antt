-- ===== src/Web/Sources/Refined.antt =====
-- The handlers of the whitelist against what they promise.
use sub_manager_vpn.Web.Sources.Promised.{SourceRequest}
use sub_manager_vpn.Web.Sources.Promised.{
  putting, toggling, deleting, adding, Replies, switch_of, promised_reply, handle,
}
use sub_manager_vpn.Registry.Refined.{step-Refines}
use mathlib.Core.Option.{none-ne-some}
use sub_manager_vpn.Base.Strings.Trim.{trim_space-IsTrimmed}
use mathlib.Core.Path.{subst}
use sub_manager_vpn.Web.Sources.Put.{handle_put_source-Refines}
use sub_manager_vpn.Base.Strings.Split.{split}
use sub_manager_vpn.Web.Sources.Handled.{
  removed_failed, add-Refines, remove-Refines, add_lines-Refines, promised_lines,
}
use sub_manager_vpn.Registry.Views.{id-url, pair_of, view}
use sub_manager_vpn.Registry.{set_enabled, add_source, remove_source, read, Source, list_sources}
use sub_manager_vpn.Registry.Spec.{
  switches, step, switch_first, removes, adds, promised, is_listed, Whitelist,
}
use sub_manager_vpn.Web.Sources.{
  old_url, reply, add_lines, handle_put_source, source_with, handle_toggle_source,
  handle_delete_source, handle_add_source, Reply,
}
use sub_manager_vpn.Registry.File.{read-IsStored, IsStored, IsUrlParser}
use sub_manager_vpn.Base.{
  ◌||◌, any, ◌∙◌, refl, sym, ap, is_empty, find, not, map, [], text_eq, trim_space, if◌then◌else◌,
  All, ◌∷◌, some, ◌≡◌, true, none, false, List, ℕ, Bool, Text, Option,
}
use sub_manager_vpn.Net.{Network}

module _ (net : Network) where
  module _ (law : IsUrlParser net) where
    adding-Replies :
        (url text : Text) (file : Option Text)
        → Replies net
            (handle_add_source net true (some (url, text)) file)
            (promised_reply net (adding (some (url, text))) (view net file))
    unfolding handle_add_source promised_reply
    adding-Replies url text file =
        subst
          (λ q.
            Replies net (left (not (is_empty (trim_space text))) (not (is_empty u)) lines.0 one.0)
              (right (not (is_empty (trim_space text))) (not (is_empty u)) wished.0 q))
          (add-Refines net law u file (trim_space-IsTrimmed url)).0
          (subst
            (λ p.
              Replies net (left (not (is_empty (trim_space text))) (not (is_empty u)) lines.0 one.0)
                (right (not (is_empty (trim_space text))) (not (is_empty u)) p one.0))
            (add_lines-Refines net law (split b'\n' text) file).0
            (go (not (is_empty (trim_space text))) (not (is_empty u)) lines.0 one.0))
      where
        u : Text
        u = trim_space url

        lines : Bool × Option Text
        lines = add_lines net true (split b'\n' text) file

        one : Bool × Option Text
        one = add_source net true u file

        wished : Bool × Whitelist
        wished = promised_lines net (split b'\n' text) (view net file)

        single : Bool × Whitelist
        single = promised net (adds u) (view net file)

        left : Bool → Bool → Bool → Bool → Reply
        left t v a b =
            if t
            then (if not a
                then reply 400 lines.1
                else record { status = 200; file = lines.1; cycle_requested = true })
            else if v
            then (if not b
                then reply 400 one.1
                else record { status = 200; file = one.1; cycle_requested = true })
            else reply 200 file

        right : Bool → Bool → Bool → Bool → (ℕ × Whitelist) × Bool
        right t v a b =
            if t
            then (if a then ((200, wished.1), true) else ((400, wished.1), false))
            else if v
            then (if b then ((200, single.1), true) else ((400, single.1), false))
            else ((200, view net file), false)

        go : (t v a b : Bool) → Replies net (left t v a b) (right t v a b)
        go true v true b = (refl, (add_lines-Refines net law (split b'\n' text) file).1, refl)
        go true v false b = (refl, (add_lines-Refines net law (split b'\n' text) file).1, refl)
        go false true a true =
            (refl, (add-Refines net law u file (trim_space-IsTrimmed url)).1, refl)
        go false true a false =
            (refl, (add-Refines net law u file (trim_space-IsTrimmed url)).1, refl)
        go false false a b = (refl, refl, refl)

    deleting-Replies :
        (id : Text) (file : Option Text)
        → Replies net
            (handle_delete_source net true id file)
            (promised_reply net (deleting id) (view net file))
    unfolding handle_delete_source promised_reply
    deleting-Replies id file =
        subst (λ q. Replies net (left done.0) (right q)) (remove-Refines net law id file).0
          (go done.0 refl)
      where
        done : Bool × Option Text
        done = remove_source net true id file

        wished : Bool × Whitelist
        wished = promised net (removes id) (view net file)

        left : Bool → Reply
        left b = if not b then reply 404 done.1 else reply 200 done.1

        right : Bool → (ℕ × Whitelist) × Bool
        right b = if b then ((200, wished.1), false) else ((404, view net file), false)

        go : (b : Bool) → done.0 ≡ b → Replies net (left b) (right b)
        go true e = (refl, (remove-Refines net law id file).1, refl)
        go false e = (refl, ap (view net) (removed_failed net law id file e), refl)

    source_with-switch_of :
        (id : Text) (ss : List Source)
        → All (IsStored net) ss
        → switch_of id (map pair_of ss)
          ≡ elim (source_with net id ss) [ none ↦ none | some s ↦ some s.enabled ]
    unfolding source_with switch_of
    source_with-switch_of id [] h = refl
    source_with-switch_of id (s ∷ ss) (hs, h) =
        ap (λ x. if text_eq x id then some s.enabled else switch_of id (map pair_of ss))
          (sym (id-url net s hs))
        ∙ go (text_eq s.id id) (source_with-switch_of id ss h)
      where
        rest : Option Source
        rest = find (λ t. text_eq t.id id) ss

        shown : Option Source → Option Bool
        shown o = elim o [ none ↦ none | some t ↦ some t.enabled ]

        go :
            (b : Bool)
            → switch_of id (map pair_of ss) ≡ shown rest
            → (if b then some s.enabled else switch_of id (map pair_of ss))
              ≡ shown (if b then some s else rest)
        go true ih = refl
        go false ih = ih

    is_listed-switch_of :
        (id : Text) (w : Whitelist) (b : Bool) → switch_of id w ≡ some b → is_listed net id w ≡ true
    unfolding switch_of is_listed
    is_listed-switch_of id [] b e = absurd (none-ne-some b e)
    is_listed-switch_of id (p ∷ w) b e = go (text_eq p.0 id) e (is_listed-switch_of id w b)
      where
        go :
            (c : Bool)
            → (if c then some p.1 else switch_of id w) ≡ some b
            → (switch_of id w ≡ some b → any (λ q. text_eq q.0 id) w ≡ true)
            → (c || any (λ q. text_eq q.0 id) w) ≡ true
        go true q ih = refl
        go false q ih = ih q

    switch-Refines :
        (id : Text) (b : Bool) (file : Option Text)
        → is_listed net id (view net file) ≡ true
        → ((set_enabled net true id b file).0 ≡ true)
          × (view net (set_enabled net true id b file).1 ≡ switch_first net id b (view net file))
    unfolding step promised
    switch-Refines id b file l =
        let r = step-Refines net law (switches id b) file tt in
        (r.0 ∙ ap (λ c. (out c).0) l, r.1 ∙ ap (λ c. (out c).1) l)
      where
        out : Bool → Bool × Whitelist
        out c = if c then (true, switch_first net id b (view net file)) else (false, view net file)

    toggling-Replies :
        (id : Text) (file : Option Text)
        → Replies net
            (handle_toggle_source net true id file)
            (promised_reply net (toggling id) (view net file))
    unfolding handle_toggle_source promised_reply list_sources
    toggling-Replies id file =
        subst (λ o. Replies net (left (source_with net id (read net file))) (right o)) (sym found)
          (go (source_with net id (read net file)) refl)
      where
        shown : Option Source → Option Bool
        shown o = elim o [ none ↦ none | some t ↦ some t.enabled ]

        found : switch_of id (view net file) ≡ shown (source_with net id (read net file))
        found = source_with-switch_of id (read net file) (read-IsStored net file)

        done : Source → Bool × Option Text
        done s = set_enabled net true id (not s.enabled) file

        left : Option Source → Reply
        left o = elim o [
          | none ↦ reply 404 file
          | some cur ↦ if not (done cur).0 then reply 500 (done cur).1 else reply 200 (done cur).1
        ]

        right : Option Bool → (ℕ × Whitelist) × Bool
        right o = elim o [
          | none ↦ ((404, view net file), false)
          | some b ↦ ((200, switch_first net id (not b) (view net file)), false)
        ]

        answer : Source → Bool → Reply
        answer s b = if not b then reply 500 (done s).1 else reply 200 (done s).1

        go :
            (o : Option Source)
            → source_with net id (read net file) ≡ o
            → Replies net (left o) (right (shown o))
        go none e = (refl, refl, refl)
        go (some s) e =
            let w =
              switch-Refines id (not s.enabled) file
                (is_listed-switch_of id (view net file) s.enabled (found ∙ ap shown e)) in
            (
              ap (λ b. (answer s b).status) w.0,
              ap (λ b. view net (answer s b).file) w.0 ∙ w.1,
              ap (λ b. (answer s b).cycle_requested) w.0,
            )

    put-quiet :
        (id body : Text) (file : Option Text)
        → (handle_put_source net (true, true, true) id (some body) file).cycle_requested ≡ false
    unfolding handle_put_source
    put-quiet id body file =
        go file removed.1
          (if not (is_empty (old_url net id file))
            then (add_source net true (old_url net id file) added.1).1
            else added.1)
          added.1 (is_empty (trim_space body)) removed.0 added.0
      where
        removed : Bool × Option Text
        removed = remove_source net true id file

        added : Bool × Option Text
        added = add_source net true (trim_space body) removed.1

        go :
            (f g h i : Option Text) (e r a : Bool)
            → (if e
                then reply 400 f
                else if not r
                then reply 404 g
                else if not a
                then reply 400 h
                else reply 200 i).cycle_requested
              ≡ false
        go f g h i true r a = refl
        go f g h i false false a = refl
        go f g h i false true false = refl
        go f g h i false true true = refl

    -- Each handler that changes the whitelist answers with the status and leaves the list of addresses
    -- that it promises, and asks for a cycle exactly after a text or an address of which nothing was
    -- refused. A text is added line by line, the refused ones left out; a change takes the source out and
    -- appends the new address, or if that is refused the old one, switched on. The file can be written;
    -- the laws of addresses are those of the registry.
    pub handle-Replies :
        (r : SourceRequest) (file : Option Text)
        → Replies net (handle net r file) (promised_reply net r (view net file))
    unfolding handle promised_reply
    handle-Replies (adding none) file = unfold handle_add_source in (refl, refl, refl)
    handle-Replies (adding (some (url, text))) file = adding-Replies url text file
    handle-Replies (toggling id) file = toggling-Replies id file
    handle-Replies (deleting id) file = deleting-Replies id file
    handle-Replies (putting id none) file = unfold handle_put_source in (refl, refl, refl)
    handle-Replies (putting id (some body)) file =
        let r = handle_put_source-Refines net law id body file in (r.0, r.1, put-quiet id body file)
