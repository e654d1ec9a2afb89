-- ===== src/Net/Blocks.antt =====
-- The four-byte addresses that are refused are those of a list of blocks.
use sub_manager_vpn.Net.{v4, Network, is_public_ip}
use sub_manager_vpn.Base.{arith, any, not, ◌≡◌, ◌==◌, [], ◌<◌, ◌/◌, ◌+◌, ◌∷◌, Bool, ◌*◌, ℕ, List}

-- An address as a number of 32 bits. A block of `size` addresses starts at a multiple of `size`.
abbrev pub address : ℕ → ℕ → ℕ → ℕ → ℕ
address a b c d = a * 16777216 + b * 65536 + c * 256 + d

pub record Block : Type 0 where
  pub base : ℕ
  pub size : ℕ

abbrev pub in_block : ℕ → Block → Bool
in_block n block = n / block.size == block.base / block.size

-- 0.0.0.0/8, 127.0.0.0/8, 10.0.0.0/8, 172.16.0.0/12, 192.168.0.0/16, 169.254.0.0/16, 224.0.0.0/4
-- and 240.0.0.0/4
abbrev pub reserved : List Block
reserved =
    record { base = address 0 0 0 0; size = 16777216 }
    ∷ record { base = address 127 0 0 0; size = 16777216 }
    ∷ record { base = address 10 0 0 0; size = 16777216 }
    ∷ record { base = address 172 16 0 0; size = 1048576 }
    ∷ record { base = address 192 168 0 0; size = 65536 }
    ∷ record { base = address 169 254 0 0; size = 65536 }
    ∷ record { base = address 224 0 0 0; size = 268435456 }
    ∷ record { base = address 240 0 0 0; size = 268435456 }
    ∷ []

-- Of the four-byte addresses exactly those are public that lie in none of the blocks 0.0.0.0/8,
-- 127.0.0.0/8, 10.0.0.0/8, 172.16.0.0/12, 192.168.0.0/16, 169.254.0.0/16, 224.0.0.0/4 and
-- 240.0.0.0/4.
pub is_public_ip-reserved :
    (net : Network) (a b c d : ℕ)
    → a < 256
    → b < 256
    → c < 256
    → d < 256
    → is_public_ip net (v4 a b c d) ≡ not (any (in_block (address a b c d)) reserved)
unfolding is_public_ip
is_public_ip-reserved net a b c d ha hb hc hd = ground arith
