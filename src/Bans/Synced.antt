-- ===== src/Bans/Synced.antt =====
-- The file and the memory agree as long as the file can be written.
use sub_manager_vpn.Base.{
  text_eq_refl, true, refl, ap, text_eq_iff, ◌||◌, text_eq, if◌then◌else◌, Bool, ◌∷◌, arith, not,
  is_empty, ◌∙◌, ◌&&◌, some, false, Option, ◌≡◌, [], List, one_of, Text,
}
use sub_manager_vpn.Bans.{save, add, new, load, has, Store}

-- A restart finds the same hashes banned.
abbrev pub IsSynced : Store → Type 0
IsSynced s = (j : Text) → has j (new s.file) ≡ has j s

-- Nobody bans the empty hash.
abbrev pub IsProper : Store → Type 0
IsProper s = one_of s.set [] ≡ false

one_of-load :
    (hs : List Text) (j : Text) → one_of (load (some hs)) j ≡ (one_of hs j && not (is_empty j))
unfolding load one_of
one_of-load [] j = ground arith
one_of-load (h ∷ hs) j =
    go (is_empty h) refl (one_of (load (some hs)) h) refl (one_of-load hs j) (one_of-load hs h)
  where
    rest : List Text
    rest = load (some hs)

    go :
        (b : Bool)
        → is_empty h ≡ b
        → (d : Bool) → one_of rest h ≡ d
        → one_of rest j ≡ (one_of hs j && not (is_empty j))
        → one_of rest h ≡ (one_of hs h && not (is_empty h))
        → one_of (if b then rest else (if d then rest else h ∷ rest)) j
          ≡ ((text_eq j h || one_of hs j) && not (is_empty j))
    go b e d ed ih ih' = ground (arith, text_eq_iff j h, ap is_empty, ih, ih')

reloaded :
    (set : List Text) (file : Option (List Text))
    → one_of set [] ≡ false
    → IsSynced (record { set = set; file = some set })
unfolding has new
reloaded set file proper [] = one_of-load set [] ∙ (unfold is_empty in ground arith)
reloaded set file proper (c ∷ j) = one_of-load set (c ∷ j) ∙ (unfold is_empty in ground arith)

-- If the file can be written, banning a hash keeps it true that a restart finds the same hashes
-- banned, and afterwards exactly the given hash, unless it is empty, is banned besides those that
-- were.
pub add-IsSynced :
    (h : Text) (s : Store)
    → IsProper s
    → IsSynced s
    → (IsProper (add true h s).1 × IsSynced (add true h s).1)
      × ((j : Text) → has j (add true h s).1 ≡ (has j s || (text_eq j h && not (is_empty h))))
unfolding add save is_empty
add-IsSynced [] s proper synced = ((proper, synced), λ j. ground arith)
add-IsSynced (c ∷ h) s proper synced = go (one_of s.set (c ∷ h)) refl
  where
    k : Text
    k = c ∷ h

    next : Store
    next = record { set = k ∷ s.set; file = some (k ∷ s.set) }

    chosen : Bool → Bool × Store
    chosen b = if b then (true, s) else (true, next)

    go :
        (b : Bool)
        → one_of s.set k ≡ b
        → (IsProper (chosen b).1 × IsSynced (chosen b).1)
          × ((j : Text) → has j (chosen b).1 ≡ (has j s || (text_eq j k && true)))
    go true e = ((proper, synced), λ j. unfold has in ground (arith, text_eq_iff j k))
    go false e =
        let proper' : one_of (k ∷ s.set) [] ≡ false = unfold one_of text_eq in proper in
        (
          (proper', reloaded (k ∷ s.set) (some (k ∷ s.set)) proper'),
          λ j. unfold has one_of in ground arith,
        )

added_unsaved :
    (h : Text) (s : Store)
    → is_empty h ≡ false
    → one_of s.set h ≡ false
    → add false h s ≡ (false, record s { set = h ∷ s.set })
unfolding add save
added_unsaved h s e n = rw (e, n) refl

added_again :
    (h : Text) (s : Store) → is_empty h ≡ false → one_of s.set h ≡ true → add true h s ≡ (true, s)
unfolding add save
added_again h s e n = rw (e, n) refl

-- After a ban that could not be saved, banning the hash again reports no error although the file
-- still lacks it.
pub add-unsaved :
    (h : Text) (s : Store)
    → is_empty h ≡ false
    → has h s ≡ false
    → ((add false h s).0 ≡ false)
      × (((add true h (add false h s).1).0 ≡ true)
          × ((add true h (add false h s).1).1.file ≡ s.file))
unfolding has
add-unsaved h s e n =
    rw
      (
        added_unsaved h s e n,
        added_again h (record s { set = h ∷ s.set }) e (unfold one_of in rw (text_eq_refl h) refl),
      )
      (refl, (refl, refl))
