-- ===== src/Web/Sources.antt =====
-- internal/web/handlers.go: the handlers that change the whitelist of sources.
pub mod Handled
pub mod Put
pub mod Promised
pub mod Refined
pub mod Examples
use sub_manager_vpn.Base.Strings.Split.{split}
use sub_manager_vpn.Registry.{
  hash_sign, set_enabled, add_source, Source, remove_source, list_sources,
}
use sub_manager_vpn.Base.{
  ◌&&◌, has_prefix, ◌||◌, text_eq, is_empty, ◌∷◌, not, find, [], true, trim_space, none,
  if◌then◌else◌, some, false, List, Text, Option, Bool, ℕ,
}
use sub_manager_vpn.Net.{Network}

-- What a handler leaves: the status it answers with, the whitelist's file, and whether it asked the
-- scheduler for a cycle.
pub record Reply : Type 0 where
  pub status : ℕ
  pub file : Option Text
  pub cycle_requested : Bool

abbrev pub reply : ℕ → Option Text → Reply
reply status file = record { status = status; file = file; cycle_requested = false }

module _ (net : Network) where
  -- The loop of `handleAddSource`: whether every line was added, and the file.
  unfoldable pub add_lines : Bool → List Text → Option Text → Bool × Option Text
  add_lines writable [] file = (true, file)
  add_lines writable (l ∷ lines) file =
      let line = trim_space l in
      let skipped = add_lines writable lines file in
      let added = add_source net writable line file in
      let rest = add_lines writable lines added.1 in
      if is_empty line || has_prefix line hash_sign then skipped else (added.0 && rest.0, rest.1)

  -- `handleAddSource`; the body has an address and a text of lines, `none` if it cannot be decoded.
  unfoldable pub handle_add_source : Bool → Option (Text × Text) → Option Text → Reply
  handle_add_source writable none file = reply 400 file
  handle_add_source writable (some (url, text)) file =
      let u = trim_space url in
      let lines = add_lines writable (split b'\n' text) file in
      let one = add_source net writable u file in
      if not (is_empty (trim_space text))
      then (if not lines.0
          then reply 400 lines.1
          else record { status = 200; file = lines.1; cycle_requested = true })
      else if not (is_empty u)
      then (if not one.0
          then reply 400 one.1
          else record { status = 200; file = one.1; cycle_requested = true })
      else reply 200 file

  -- The first source with an id.
  unfoldable pub source_with : Text → List Source → Option Source
  source_with id sources = find (λ s. text_eq s.id id) sources

  -- `handleToggleSource`
  unfoldable pub handle_toggle_source : Bool → Text → Option Text → Reply
  handle_toggle_source writable id file = elim (source_with id (list_sources net file)) [
    | none ↦ reply 404 file
    | some cur ↦
        let done = set_enabled net writable id (not cur.enabled) file in
        if not done.0 then reply 500 done.1 else reply 200 done.1
  ]

  -- `handleDeleteSource`
  unfoldable pub handle_delete_source : Bool → Text → Option Text → Reply
  handle_delete_source writable id file =
      let done = remove_source net writable id file in
      if not done.0 then reply 404 done.1 else reply 200 done.1

  unfoldable pub old_url : Text → Option Text → Text
  old_url id file = elim (source_with id (list_sources net file)) [ none ↦ [] | some s ↦ s.url ]

  -- `handlePutSource`; `body` is the address in the body, `none` if that cannot be decoded. The file is
  -- written up to three times: to remove, to add and to restore.
  unfoldable pub handle_put_source : Bool × Bool × Bool → Text → Option Text → Option Text → Reply
  handle_put_source (w, v, u) id none file = reply 400 file
  handle_put_source (w, v, u) id (some body) file =
      let new_url = trim_space body in
      let old = old_url id file in
      let removed = remove_source net w id file in
      let added = add_source net v new_url removed.1 in
      let restored = add_source net u old added.1 in
      if is_empty new_url
      then reply 400 file
      else if not removed.0
      then reply 404 removed.1
      else if not added.0
      then reply 400 (if not (is_empty old) then restored.1 else added.1)
      else reply 200 added.1
