-- ===== src/Filter/Servable.antt =====
-- What a node that passed every filter is, said without the filters, and the proof for each filter.
use Prim.Native.Nat.{◌<◌}
use sub_manager_vpn.Base.{
  contains, trim_space, any, List, text_eq_iff, ◌≡◌, ◌≢◌, ◌⊎◌, refl, true, false, [], ◌∷◌, some,
  Text, codes, is_empty, one_of, to_lower, All, arith,
}
use sub_manager_vpn.Base.Map.{Map, lookup, lookup_or}
use sub_manager_vpn.Base.Int.{pos_part}
use sub_manager_vpn.Node.{Node, vmess, vless, trojan, ss, hysteria2, tuic, wireguard}
use sub_manager_vpn.Filter.Defs.{
  is_malware_plugin, malware, unsupported, insecure_transport, insecure, broken, blank, is_truthy,
  entry_is, is_plain_forward, has_cert_skip, malware_value, is_malware_extra, is_safe_ss,
}

-- The schemes whose parser fills in `User`.
abbrev pub HasCredential : Node → Type 0
HasCredential n = one_of (vmess ∷ vless ∷ trojan ∷ hysteria2 ∷ tuic ∷ ss ∷ []) n.protocol ≡ true

-- The AEAD ciphers that a client can use, in lower case.
abbrev pub aead : List Text
aead =
    codes "aes-128-gcm"
    ∷ codes "aes-256-gcm"
    ∷ codes "chacha20-ietf-poly1305"
    ∷ codes "xchacha20-ietf-poly1305"
    ∷ codes "2022-blake3-aes-128-gcm"
    ∷ codes "2022-blake3-aes-256-gcm"
    ∷ codes "2022-blake3-chacha20-poly1305"
    ∷ []

abbrev pub affirmative : List Text
affirmative = codes "1" ∷ codes "true" ∷ codes "yes" ∷ []

-- Proxies that do not encrypt.
abbrev pub open_schemes : List Text
open_schemes = codes "socks" ∷ codes "http" ∷ codes "https" ∷ []

-- Keys of options that run something, and what a value that does so has in it.
abbrev pub command_keys : List Text
command_keys =
    codes "exec" ∷ codes "command" ∷ codes "script" ∷ codes "outbound-hijack" ∷ codes "route" ∷ []

abbrev pub command_marks : List Text
command_marks =
    codes "exec "
    ∷ codes "command "
    ∷ codes "script"
    ∷ codes "$("
    ∷ codes "`"
    ∷ codes "&&"
    ∷ codes ".sh"
    ∷ codes ".exe"
    ∷ codes ".bat"
    ∷ codes ".ps1"
    ∷ codes ".dll"
    ∷ codes ".py"
    ∷ []

-- The option is not there, or does not say yes.
abbrev pub IsVerified : Node → Text → Type 0
IsVerified n k =
    (v : Text) → lookup k n.extra ≡ some v → one_of affirmative (to_lower (trim_space v)) ≡ false

-- The option is not there, or names no open proxy.
abbrev pub IsClosed : Node → Text → Type 0
IsClosed n k = (v : Text) → lookup k n.extra ≡ some v → one_of open_schemes (to_lower v) ≡ false

abbrev pub IsBenign : Text × Text → Type 0
IsBenign e =
    (one_of command_keys (to_lower e.0) ≡ false)
    × (any (contains (to_lower e.1)) command_marks ≡ false)

pub record IsServable (n : Node) : Type 0 where
  pub host : blank n.host ≡ false
  pub port : 0 < pos_part n.port
  pub scheme : n.protocol ≢ wireguard
  pub credential : HasCredential n → blank n.user ≡ false
  pub cipher : n.protocol ≡ ss → one_of aead (to_lower (trim_space n.encryption)) ≡ true
  pub reality :
      n.protocol ≡ vless
      → (n.security ≡ codes "tls") × (is_empty n.flow ≡ true)
        ⊎ (n.security ≡ codes "reality") × (blank (lookup_or [] (codes "pbk") n.extra) ≡ false)
  pub tls : (n.protocol ≡ vmess) ⊎ (n.protocol ≡ trojan) → n.security ≡ codes "tls"
  pub quic : (n.protocol ≡ hysteria2) ⊎ (n.protocol ≡ tuic) → n.security ≢ codes "none"
  pub forward :
      (one_of open_schemes (to_lower n.protocol) ≡ false)
      × IsClosed n (codes "protocol")
      × IsClosed n (codes "scheme")
  pub verified :
      IsVerified n (codes "insecure")
      × IsVerified n (codes "allow_insecure")
      × IsVerified n (codes "skip-cert-verify")
  pub benign : All IsBenign n.extra
  pub plugin : blank n.plugin ≡ true

pub malware_value-marks : (v : Text) → malware_value v ≡ any (contains (to_lower v)) command_marks
unfolding malware_value
malware_value-marks v = ground arith

pub is_safe_ss-aead : (c : Text) → is_safe_ss c ≡ one_of aead (to_lower (trim_space c))
unfolding is_safe_ss one_of
is_safe_ss-aead c = ground arith

IsBenign-of : (extra : Map Text) → is_malware_extra extra ≡ false → All IsBenign extra
unfolding is_malware_extra
IsBenign-of [] h = tt
IsBenign-of ((k, v) ∷ extra) h =
    ((ground arith, ground (arith, malware_value-marks v)), IsBenign-of extra (ground arith))

pub malware_of_benign : (extra : Map Text) → All IsBenign extra → is_malware_extra extra ≡ false
unfolding is_malware_extra
malware_of_benign [] h = refl
malware_of_benign ((k, v) ∷ extra) ((hk, hv), h) =
    ground (arith, malware_of_benign extra h, malware_value-marks v)

IsVerified-of : (n : Node) (k : Text) → entry_is n.extra is_truthy k ≡ false → IsVerified n k
unfolding entry_is
IsVerified-of n k h v e = unfold is_truthy in ground arith

IsClosed-of :
    (n : Node) (k : Text)
    → entry_is n.extra (λ v. one_of open_schemes (to_lower v)) k ≡ false
    → IsClosed n k
unfolding entry_is
IsClosed-of n k h v e = ground arith

forward_of :
    (n : Node)
    → is_plain_forward n.protocol n.extra ≡ false
    → (one_of open_schemes (to_lower n.protocol) ≡ false)
      × IsClosed n (codes "protocol")
      × IsClosed n (codes "scheme")
unfolding is_plain_forward
forward_of n h = (
  ground arith,
  IsClosed-of n (codes "protocol") (ground arith),
  IsClosed-of n (codes "scheme") (ground arith),
)

all-IsVerified :
    (n : Node)
    → has_cert_skip n.extra ≡ false
    → IsVerified n (codes "insecure")
      × IsVerified n (codes "allow_insecure")
      × IsVerified n (codes "skip-cert-verify")
unfolding has_cert_skip
all-IsVerified n h = (
  IsVerified-of n (codes "insecure") (ground arith),
  IsVerified-of n (codes "allow_insecure") (ground arith),
  IsVerified-of n (codes "skip-cert-verify") (ground arith),
)

-- The three cases of the `switch`, read off a transport that was not dropped.
reality_of :
    (n : Node)
    → insecure_transport n ≡ false
    → n.protocol ≡ vless
    → (n.security ≡ codes "tls") × (is_empty n.flow ≡ true)
      ⊎ (n.security ≡ codes "reality") × (blank (lookup_or [] (codes "pbk") n.extra) ≡ false)
unfolding insecure_transport
reality_of n h e = ground (
  arith,
  text_eq_iff n.protocol vless,
  text_eq_iff n.security (codes "tls"),
  text_eq_iff n.security (codes "reality"),
)

tls_of :
    (n : Node)
    → insecure_transport n ≡ false
    → (n.protocol ≡ vmess) ⊎ (n.protocol ≡ trojan)
    → n.security ≡ codes "tls"
unfolding insecure_transport one_of
tls_of n h e = ground (
  arith,
  text_eq_iff n.protocol vless,
  text_eq_iff n.protocol vmess,
  text_eq_iff n.protocol trojan,
  text_eq_iff n.security (codes "tls"),
)

quic_of :
    (n : Node)
    → insecure_transport n ≡ false
    → (n.protocol ≡ hysteria2) ⊎ (n.protocol ≡ tuic)
    → n.security ≢ codes "none"
unfolding insecure_transport one_of
quic_of n h e s = ground (
  arith,
  text_eq_iff n.protocol vless,
  text_eq_iff n.protocol vmess,
  text_eq_iff n.protocol trojan,
  text_eq_iff n.protocol hysteria2,
  text_eq_iff n.protocol tuic,
  text_eq_iff n.security (codes "none"),
)

credential_of : (n : Node) → broken n ≡ false → HasCredential n → blank n.user ≡ false
unfolding broken one_of
credential_of n h c = ground arith

cipher_of :
    (n : Node)
    → unsupported n ≡ false
    → n.protocol ≡ ss
    → one_of aead (to_lower (trim_space n.encryption)) ≡ true
unfolding unsupported
cipher_of n h e = ground (
  arith,
  is_safe_ss-aead n.encryption,
  text_eq_iff n.protocol ss,
  text_eq_iff n.protocol wireguard,
)

scheme_of : (n : Node) → unsupported n ≡ false → n.protocol ≢ wireguard
unfolding unsupported
scheme_of n h e = ground (arith, text_eq_iff n.protocol wireguard)

pub IsServable-of_kept :
    (n : Node)
    → broken n ≡ false
    → unsupported n ≡ false
    → insecure n ≡ false
    → malware n ≡ false
    → IsServable n
unfolding insecure malware is_malware_plugin
IsServable-of_kept n b u i m = record {
  host = unfold broken in ground arith;
  port = unfold broken in ground arith;
  scheme = scheme_of n u;
  credential = credential_of n b;
  cipher = cipher_of n u;
  reality = reality_of n (ground arith);
  tls = tls_of n (ground arith);
  quic = quic_of n (ground arith);
  forward = forward_of n (ground arith);
  verified = all-IsVerified n (ground arith);
  benign = IsBenign-of n.extra (ground arith);
  plugin = ground arith;
}
