-- ===== src/Web/Log.antt =====
-- internal/web/hub.go: the captured log, cut into lines and kept in a ring.
pub mod Lines
pub mod Recent
use sub_manager_vpn.Base.Int.{pos_part, not_positive, ℤ}
use sub_manager_vpn.Base.{
  ◌-◌, leb, is_empty, drop, ◌||◌, length, ◌&&◌, ltb, ◌==◌, ◌∷◌, ℕ, if◌then◌else◌, [], ◌++◌, Text,
  List,
}

-- `newRingBuffer`
unfoldable pub ring_size : ℤ → ℕ
ring_size size = if not_positive size then 256 else pos_part size

pub record RingBuffer : Type 0 where
  pub buf : List Text
  pub size : ℕ

-- `append`
unfoldable pub append : Text → RingBuffer → RingBuffer
append line r =
    let buf = r.buf ++ line ∷ [] in
    record r { buf = if ltb r.size (length buf) then drop (length buf - r.size) buf else buf }

-- `Recent`
unfoldable pub recent : ℤ → RingBuffer → List Text
recent n r =
    if not_positive n || leb (length r.buf) (pos_part n)
    then r.buf
    else drop (length r.buf - pos_part n) r.buf

-- `published` are the lines handed to the hub, in order.
pub record LogCapture : Type 0 where
  pub ring : RingBuffer
  pub published : List Text
  pub partial : Text

-- `strings.TrimRight(line, "\r")`
unfoldable pub trim_returns : Text → Text
trim_returns [] = []
trim_returns (c ∷ s) =
    let rest = trim_returns s in if c == 13 && is_empty rest then [] else c ∷ rest

unfoldable pub emit : Text → LogCapture → LogCapture
emit line l = record l {
  ring = append (trim_returns line) l.ring;
  published = l.published ++ trim_returns line ∷ [];
}

-- The loop of `Write` over the text: `line` is what stands before the next newline, as far as the
-- search for it has come.
unfoldable pub drain : Text → Text → LogCapture → LogCapture
drain line [] l = record l { partial = line }
drain line (c ∷ text) l =
    if c == 10 then drain [] text (emit line l) else drain (line ++ c ∷ []) text l

-- `Write`
unfoldable pub write : Text → LogCapture → LogCapture
write p l = drain [] (l.partial ++ p) l
