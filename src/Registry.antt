-- ===== src/Registry.antt =====
-- internal/config/config.go: the whitelist of sources in its text file.
pub mod File
pub mod Spec
pub mod Views
pub mod Refined
pub mod Examples
use sub_manager_vpn.Base.Strings.Split.{trim_right_of, trim_of, split}
use sub_manager_vpn.Net.{is_public_literal_ip, Network}
use sub_manager_vpn.Base.{
  trim_prefix, ◌+◌, ◌||◌, has_prefix, any, ◌&&◌, true, to_lower, text_eq, not, length, is_empty,
  ◌++◌, trim_space, some, if◌then◌else◌, filter, false, [], ◌∷◌, ◌∷◌, ℕ, none, codes, Option, Bool,
  Text, List,
}

pub data Kind : Type 0 where
  repo raw : Kind

-- When a source was added is not stored, so it is left out.
pub record Source : Type 0 where
  pub id : Text
  pub url : Text
  pub kind : Kind
  pub enabled : Bool

abbrev pub hash_sign : Text
hash_sign = b'#' ∷ []

abbrev pub github : Text
github = codes "github.com"

unfoldable pub at_least_two : List Text → Bool
at_least_two [] = false
at_least_two (a ∷ []) = false
at_least_two (a ∷ b ∷ rest) = not (is_empty a)

module _ (net : Network) where
  -- `detectKind`
  unfoldable pub detect_kind : Text → Kind
  detect_kind url = elim (net.url_parse url) [
    | none ↦ raw
    | some u ↦
        if not (text_eq u.host github)
        then raw
        else if at_least_two (split b'/' (trim_of b'/' u.path))
        then repo
        else raw
  ]

  -- `isHTTPS`
  unfoldable pub is_https : Text → Bool
  is_https url = elim (net.url_parse url) [
    | none ↦ false
    | some u ↦ text_eq u.scheme (codes "https")
  ]

  -- `parseLine`; `none` is a line that is no source
  unfoldable pub parse_line : Text → Option (Text × Bool)
  parse_line line =
      let trimmed = trim_space line in
      let rest = trim_space (trim_prefix trimmed hash_sign) in
      if is_empty trimmed
      then none
      else if has_prefix trimmed hash_sign
      then if is_https rest then some (rest, false) else none
      else if is_https trimmed
      then some (trimmed, true)
      else none

  unfoldable pub source_of : Text → Bool → Source
  source_of url enabled = record { id = url; url = url; kind = detect_kind url; enabled = enabled }

  unfoldable pub read_lines : List Text → List Source
  read_lines [] = []
  read_lines (line ∷ lines) =
      let rest = read_lines lines in
      elim (parse_line line) [ none ↦ rest | some (u, enabled) ↦ source_of u enabled ∷ rest ]

  -- `read`; a missing file has no sources
  unfoldable pub read : Option Text → List Source
  read none = []
  read (some content) = read_lines (split b'\n' content)

  -- The text that `write` puts into the file.
  unfoldable pub render : List Source → Text
  render [] = []
  render (s ∷ sources) = (if s.enabled then [] else codes "# ") ++ (s.url ++ b'\n' ∷ render sources)

  -- `write`: the file is replaced as a whole, or stays if that is not possible.
  unfoldable pub write : Bool → List Source → Option Text → Bool × Option Text
  write writable sources file = if writable then (true, some (render sources)) else (false, file)

  -- The path of a repository without what follows the owner and its name.
  unfoldable pub repo_path : List Text → Text → Text
  repo_path [] path = path
  repo_path (a ∷ []) path = path
  repo_path (a ∷ b ∷ rest) path =
      if not (is_empty a) && not (is_empty b) then codes "/" ++ (a ++ (codes "/" ++ b)) else path

  -- `normalizeSourceURL`
  unfoldable pub normalize_source_url : Text → Text
  normalize_source_url url = elim (net.url_parse url) [
    | none ↦ url
    | some u ↦
        let host = to_lower u.host in
        let path = trim_right_of b'/' u.path in
        let short =
          if text_eq host github || text_eq host (codes "www.github.com")
          then repo_path (split b'/' (trim_of b'/' path)) path
          else path in
        codes "https://" ++ (host ++ short)
  ]

  -- A literal address that is not public.
  unfoldable pub is_refused_host : Text → Bool
  is_refused_host url = elim (net.url_parse url) [
    | none ↦ false
    | some u ↦ let lit = is_public_literal_ip net u.hostname in lit.0 && not lit.1
  ]

  -- `AddSource`
  unfoldable pub add_source : Bool → Text → Option Text → Bool × Option Text
  add_source writable url file =
      if not (is_https url)
      then (false, file)
      else if is_refused_host url
      then (false, file)
      else let existing = read file in
        if any (λ s. text_eq (normalize_source_url s.url) (normalize_source_url url)) existing
        then (false, file)
        else write writable (existing ++ source_of url true ∷ []) file

  -- `RemoveSource`
  unfoldable pub remove_source : Bool → Text → Option Text → Bool × Option Text
  remove_source writable id file =
      let existing = read file in
      if not (any (λ s. text_eq s.id id) existing)
      then (false, file)
      else write writable (filter (λ s. not (text_eq s.id id)) existing) file

  -- The first source with that id.
  unfoldable pub set_first : Text → Bool → List Source → List Source
  set_first id enabled [] = []
  set_first id enabled (s ∷ sources) =
      if text_eq s.id id
      then record s { enabled = enabled } ∷ sources
      else s ∷ set_first id enabled sources

  -- `SetEnabled`
  unfoldable pub set_enabled : Bool → Text → Bool → Option Text → Bool × Option Text
  set_enabled writable id enabled file =
      let existing = read file in
      if not (any (λ s. text_eq s.id id) existing)
      then (false, file)
      else write writable (set_first id enabled existing) file

  -- `ListSources` and `EnabledSources`
  unfoldable pub list_sources : Option Text → List Source
  list_sources file = read file

  unfoldable pub enabled_sources : Option Text → List Source
  enabled_sources file = filter (λ s. s.enabled) (read file)

  -- The loop of `ReplaceAll`: the sources, and how many lines were skipped.
  unfoldable pub accept_all : List Text → List Source × ℕ
  accept_all [] = ([], 0)
  accept_all (line ∷ lines) =
      let rest = accept_all lines in
      let url = trim_space line in
      if is_empty url || has_prefix url hash_sign
      then rest
      else if not (is_https url)
      then (rest.0, rest.1 + 1)
      else (source_of url true ∷ rest.0, rest.1)

  -- `ReplaceAll`: added, skipped and the error
  unfoldable pub replace_all : Bool → List Text → Option Text → (Bool × Option Text) × (ℕ × ℕ)
  replace_all writable lines file =
      let got = accept_all lines in
      let done = write writable got.0 file in
      (done, if done.0 then (length got.0, got.1) else (0, 0))
