-- ===== src/Settings/Guard.antt =====
-- What a change of the settings leaves in memory and on disk.
use sub_manager_vpn.Base.{
  ap, refl, ltb_false→le, arith, inr, inl, not, ◌≤◌, if◌then◌else◌, false, ◌⊎◌, none, ltb, true,
  some, Option, ◌≡◌, Bool, is_empty, Text,
}
use sub_manager_vpn.Settings.{
  full, works, unlocked, byte_length, save, load, update, new_store, is_guarded, Store, Disk,
  SettingsCodec, Settings,
}

-- The admin page is off, or it has a token and a secret of at least 24 bytes.
abbrev pub IsProtected : Settings → Type 0
IsProtected s =
    (is_empty s.web_addr ≡ true) ⊎ (is_empty s.web_token ≡ false) × (24 ≤ byte_length s.web_secret)

module _ (codec : SettingsCodec) where
  is_guarded-IsProtected : (s : Settings) → is_guarded codec s ≡ true → IsProtected s
  unfolding is_guarded
  is_guarded-IsProtected s h =
      go (is_empty s.web_addr) (is_empty s.web_token) (ltb (byte_length s.web_secret) 24) refl h
    where
      go :
          (a t l : Bool)
          → ltb (byte_length s.web_secret) 24 ≡ l
          → (if not a then (if t then false else if l then false else true) else true) ≡ true
          → (a ≡ true) ⊎ (t ≡ false) × (24 ≤ byte_length s.web_secret)
      go true t l e k = inl refl
      go false true l e k = absurd (ground (arith, k))
      go false false true e k = absurd (ground (arith, k))
      go false false false e k = inr (refl, ltb_false→le _ _ e)

  -- What is on disk is what is in memory: a restart gives the settings back.
  abbrev pub IsSaved : Store → Type 0
  IsSaved s = new_store codec s.file ≡ some s

  abbrev pub IsRoundTrip : Settings → Type 0
  IsRoundTrip s = (t : Text) → codec.encode s ≡ some t → codec.decode t ≡ some s

  new_store-saved :
      (patch : Settings) (t : Text)
      → IsRoundTrip patch
      → codec.encode patch ≡ some t
      → new_store codec (some t) ≡ some record { file = some t; cur = patch }
  unfolding new_store load
  new_store-saved patch t r e =
      ap
        (λ o.
          elim (elim o as (λ y. Option (Settings × Bool)) [
            | none ↦ none
            | some x ↦ some (x, true)
          ]) [ none ↦ none | some (x, existed) ↦ some record { file = some t; cur = x } ])
        (r t e)

  -- What a change leads to.
  abbrev pub Outcome : Disk → Settings → Store → Bool × Store → Type 0
  Outcome disk patch s r =
      (r.0 ≡ true) × IsProtected patch × (r.1.cur ≡ patch) × IsSaved r.1
      ⊎ ((r.0 ≡ false) × (r.1 ≡ s)
          ⊎ (disk ≡ unlocked)
            × (r.0 ≡ false)
            × (r.1.cur ≡ s.cur)
            × (new_store codec r.1.file ≡ some (record { file = r.1.file; cur = patch })))

  -- A change either succeeds, with a protected admin page, and a restart gives the new settings; or it
  -- fails and changes nothing; or it fails after the file was renamed: then the old settings stay in
  -- memory, and a restart gives the new ones. JSON must give the settings back.
  pub update-Outcome :
      (disk : Disk) (patch : Settings) (s : Store)
      → IsRoundTrip patch
      → Outcome disk patch s (update codec disk patch s)
  unfolding update save
  update-Outcome disk patch s r = guard (is_guarded codec patch) refl
    where
      saved : (d : Disk) (o : Option Text) → Bool × Option Text
      saved d o = elim o [
        | none ↦ (false, s.file)
        | some t ↦ elim d [
          | works ↦ (true, some t)
          | full ↦ (false, s.file)
          | unlocked ↦ (false, some t)
        ]
      ]

      out : Bool × Option Text → Bool × Store
      out x =
          if not x.0
          then (false, record s { file = x.1 })
          else (true, record { file = x.1; cur = patch })

      written :
          IsProtected patch
          → (d : Disk) → disk ≡ d
          → (o : Option Text) → codec.encode patch ≡ o
          → Outcome disk patch s (out (saved d o))
      written p d e none c = inr (inl (refl, refl))
      written p works e (some t) c = inl (refl, p, refl, new_store-saved patch t r c)
      written p full e (some t) c = inr (inl (refl, refl))
      written p unlocked e (some t) c = inr (inr (e, refl, refl, new_store-saved patch t r c))

      guard :
          (b : Bool)
          → is_guarded codec patch ≡ b
          → Outcome disk patch s
              (if not b then (false, s) else out (saved disk (codec.encode patch)))
      guard false e = inr (inl (refl, refl))
      guard true e = written (is_guarded-IsProtected patch e) disk refl (codec.encode patch) refl
