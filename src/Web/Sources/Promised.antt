-- ===== src/Web/Sources/Promised.antt =====
-- What the handlers of the whitelist promise.
use sub_manager_vpn.Web.Sources.Put.{promised_put}
use sub_manager_vpn.Base.Strings.Split.{split}
use sub_manager_vpn.Web.Sources.Handled.{promised_lines}
use sub_manager_vpn.Registry.Views.{view}
use sub_manager_vpn.Registry.Spec.{removes, switch_first, adds, promised, Whitelist}
use sub_manager_vpn.Web.Sources.{
  handle_put_source, handle_delete_source, handle_toggle_source, handle_add_source, Reply,
}
use sub_manager_vpn.Base.{
  is_empty, not, trim_space, [], text_eq, if◌then◌else◌, ◌∷◌, some, ◌≡◌, true, none, false, ℕ, Bool,
  Text, Option,
}
use sub_manager_vpn.Net.{Network}

-- The requests that change the whitelist.
pub data SourceRequest : Type 0 where
  adding : Option (Text × Text) → SourceRequest
  toggling deleting : Text → SourceRequest
  putting : Text → Option Text → SourceRequest

-- Whether the first entry of an address is switched on.
unfoldable pub switch_of : Text → Whitelist → Option Bool
switch_of id [] = none
switch_of id (p ∷ w) = if text_eq p.0 id then some p.1 else switch_of id w

module _ (net : Network) where
  -- The handler of a request, where the file can be written.
  unfoldable pub handle : SourceRequest → Option Text → Reply
  handle (adding body) file = handle_add_source net true body file
  handle (toggling id) file = handle_toggle_source net true id file
  handle (deleting id) file = handle_delete_source net true id file
  handle (putting id body) file = handle_put_source net (true, true, true) id body file

  -- The status, the whitelist, and whether a cycle is asked for.
  unfoldable pub promised_reply : SourceRequest → Whitelist → (ℕ × Whitelist) × Bool
  promised_reply (adding none) w = ((400, w), false)
  promised_reply (adding (some (url, text))) w =
      let lines = promised_lines net (split b'\n' text) w in
      let one = promised net (adds (trim_space url)) w in
      if not (is_empty (trim_space text))
      then (if lines.0 then ((200, lines.1), true) else ((400, lines.1), false))
      else if not (is_empty (trim_space url))
      then (if one.0 then ((200, one.1), true) else ((400, one.1), false))
      else ((200, w), false)
  promised_reply (toggling id) w = elim (switch_of id w) [
    | none ↦ ((404, w), false)
    | some b ↦ ((200, switch_first net id (not b) w), false)
  ]
  promised_reply (deleting id) w =
      let done = promised net (removes id) w in
      if done.0 then ((200, done.1), false) else ((404, w), false)
  promised_reply (putting id none) w = ((400, w), false)
  promised_reply (putting id (some body)) w = (promised_put net id body w, false)

  abbrev pub Replies : Reply → (ℕ × Whitelist) × Bool → Type 0
  Replies r p = (r.status ≡ p.0.0) × (view net r.file ≡ p.0.1) × (r.cycle_requested ≡ p.1)
