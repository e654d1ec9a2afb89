-- ===== src/Bans.antt =====
-- internal/bans/bans.go: the banned hashes, in memory and in the file.
use sub_manager_vpn.Base.{
  text_eq, none, filter, false, ◌∷◌, true, some, not, is_empty, one_of, if◌then◌else◌, [], Text,
  Option, List, Bool,
}
pub mod Synced
pub mod Examples

-- `set` has no order that the program depends on. `file` is the list in the JSON file, `none` if the
-- file is missing or cannot be read.
pub record Store : Type 0 where
  pub set : List Text
  pub file : Option (List Text)

-- `Has`
unfoldable pub has : Text → Store → Bool
has h s = one_of s.set h

-- `s.set[h] = struct{}{}`
unfoldable pub set_add : Text → List Text → List Text
set_add h set = if one_of set h then set else h ∷ set

-- `New`
unfoldable pub load : Option (List Text) → List Text
unfolding set_add
load none = []
load (some []) = []
load (some (h ∷ hs)) = let rest = load (some hs) in if is_empty h then rest else set_add h rest

unfoldable pub new : Option (List Text) → Store
new file = record { set = load file; file = file }

-- `saveLocked`: whether the file can be written is not for the program to say. The Boolean tells
-- that there was no error.
unfoldable pub save : Bool → Store → Bool × Store
save writable s = if writable then (true, record s { file = some s.set }) else (false, s)

-- `Add`
unfoldable pub add : Bool → Text → Store → Bool × Store
add writable h s =
    if is_empty h
    then (true, s)
    else if one_of s.set h
    then (true, s)
    else save writable (record s { set = h ∷ s.set })

-- `Remove`
unfoldable pub remove : Bool → Text → Store → Bool × Store
remove writable h s =
    if not (one_of s.set h)
    then (true, s)
    else save writable (record s { set = filter (λ j. not (text_eq j h)) s.set })
