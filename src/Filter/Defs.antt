-- ===== src/Filter/Defs.antt =====
-- The passes of internal/filter/filter.go.
use sub_manager_vpn.Base.{
  Bool, true, false, not, ◌&&◌, ◌||◌, ◌++◌, List, [], ◌∷◌, none, some, Text, codes, text_eq,
  is_empty, one_of, contains, trim_space, to_lower, any, filter, if◌then◌else◌,
}
use sub_manager_vpn.Base.Map.{Map, lookup, lookup_or}
use sub_manager_vpn.Base.Int.{itoa, not_positive}
use sub_manager_vpn.Node.{Node, Scheme, vmess, vless, trojan, ss, hysteria2, tuic, wireguard}

-- `dedupSep`
abbrev pub sep : Text
sep = 0 ∷ []

unfoldable pub key : Node → Text
key n =
    n.protocol
    ++ (sep
        ++ (n.network
            ++ (sep
                ++ (n.host
                    ++ (sep
                        ++ (itoa n.port
                            ++ (sep
                                ++ (n.user ++ (sep ++ (n.security ++ (sep ++ n.encryption)))))))))))

-- The loop of `Dedup`: `seen` holds the keys met so far.
unfoldable pub dedup_loop : List Text → List Node → List Node
dedup_loop seen [] = []
dedup_loop seen (n ∷ nodes) =
    let skip = dedup_loop seen nodes in
    let take = n ∷ dedup_loop (key n ∷ seen) nodes in if one_of seen (key n) then skip else take

unfoldable pub dedup : List Node → List Node
dedup nodes = dedup_loop [] nodes

unfoldable pub blank : Text → Bool
blank s = is_empty (trim_space s)

unfoldable pub open_proxy : Node → Bool
open_proxy n = if one_of (vmess ∷ vless ∷ trojan ∷ ss ∷ []) n.protocol then blank n.user else false

unfoldable pub drop_open : List Node → List Node
drop_open = filter (λ n. not (open_proxy n))

unfoldable pub is_truthy : Text → Bool
is_truthy v = one_of (codes "1" ∷ codes "true" ∷ codes "yes" ∷ []) (to_lower (trim_space v))

-- `if v, ok := extra[k]; ok && test(v)`
unfoldable pub entry_is : Map Text → (Text → Bool) → Text → Bool
entry_is extra test k = elim (lookup k extra) [ none ↦ false | some v ↦ test v ]

abbrev plain_protocols : List Text
plain_protocols = codes "socks" ∷ codes "http" ∷ codes "https" ∷ []

unfoldable pub is_plain_forward : Scheme → Map Text → Bool
is_plain_forward proto extra =
    one_of plain_protocols (to_lower proto)
    || any (entry_is extra (λ v. one_of plain_protocols (to_lower v)))
        (codes "protocol" ∷ codes "scheme" ∷ [])

unfoldable pub has_cert_skip : Map Text → Bool
has_cert_skip extra =
    any (entry_is extra is_truthy)
      (codes "insecure" ∷ codes "allow_insecure" ∷ codes "skip-cert-verify" ∷ [])

-- The `switch` of `DropInsecure`.
unfoldable pub insecure_transport : Node → Bool
insecure_transport n =
    if text_eq n.protocol vless
    then not (text_eq n.security (codes "tls")) && not (text_eq n.security (codes "reality"))
      || text_eq n.security (codes "reality") && blank (lookup_or [] (codes "pbk") n.extra)
      || not (is_empty n.flow) && not (text_eq n.security (codes "reality"))
    else if one_of (vmess ∷ trojan ∷ []) n.protocol
    then not (text_eq n.security (codes "tls"))
    else if one_of (hysteria2 ∷ tuic ∷ []) n.protocol
    then text_eq n.security (codes "none")
    else false

unfoldable pub insecure : Node → Bool
insecure n =
    let drop = is_plain_forward n.protocol n.extra || insecure_transport n in
    drop || has_cert_skip n.extra

unfoldable pub drop_insecure : List Node → List Node
drop_insecure = filter (λ n. not (insecure n))

abbrev pub malware_keys : List Text
malware_keys =
    codes "exec" ∷ codes "command" ∷ codes "script" ∷ codes "outbound-hijack" ∷ codes "route" ∷ []

unfoldable pub malware_value : Text → Bool
malware_value v =
    let lower = to_lower v in
    if any (contains lower) (codes "exec " ∷ codes "command " ∷ codes "script" ∷ [])
    then true
    else if contains lower (codes "$(") || contains lower (codes "`")
    then true
    else if contains lower (codes "&&")
    then true
    else if any (contains lower)
        (codes ".sh" ∷ codes ".exe" ∷ codes ".bat" ∷ codes ".ps1" ∷ codes ".dll" ∷ codes ".py" ∷ [])
    then true
    else if any (contains lower) (codes "ssconf://" ∷ codes "http://" ∷ codes "https://" ∷ [])
    then any (contains lower) (codes "script" ∷ codes ".sh" ∷ codes ".exe" ∷ [])
    else false

unfoldable pub is_malware_plugin : Text → Bool
is_malware_plugin plugin = not (blank plugin)

-- The loop's order is Go's map order, which does not change the answer.
unfoldable pub is_malware_extra : Map Text → Bool
is_malware_extra [] = false
is_malware_extra ((k, v) ∷ extra) =
    let rest = is_malware_extra extra in
    let lk = to_lower k in
    if one_of malware_keys lk
    then true
    else if text_eq lk (codes "ssconf") && malware_value v
    then true
    else if malware_value v
    then true
    else rest

unfoldable pub malware : Node → Bool
malware n = is_malware_extra n.extra || is_malware_plugin n.plugin

unfoldable pub drop_malware : List Node → List Node
drop_malware = filter (λ n. not (malware n))

unfoldable pub broken : Node → Bool
broken n =
    if blank n.host || not_positive n.port
    then true
    else if one_of (vmess ∷ vless ∷ trojan ∷ hysteria2 ∷ tuic ∷ []) n.protocol
    then blank n.user
    else if text_eq n.protocol ss
    then blank n.user || blank n.encryption
    else false

unfoldable pub drop_broken : List Node → List Node
drop_broken = filter (λ n. not (broken n))

abbrev pub safe_ss_ciphers : List Text
safe_ss_ciphers =
    codes "aes-256-gcm"
    ∷ codes "aes-128-gcm"
    ∷ codes "chacha20-ietf-poly1305"
    ∷ codes "xchacha20-ietf-poly1305"
    ∷ codes "2022-blake3-aes-256-gcm"
    ∷ codes "2022-blake3-aes-128-gcm"
    ∷ codes "2022-blake3-chacha20-poly1305"
    ∷ []

unfoldable pub is_safe_ss : Text → Bool
is_safe_ss cipher = one_of safe_ss_ciphers (to_lower (trim_space cipher))

unfoldable pub unsupported : Node → Bool
unsupported n =
    if text_eq n.protocol wireguard
    then true
    else if text_eq n.protocol ss
    then not (is_safe_ss n.encryption)
    else false

unfoldable pub drop_unsupported : List Node → List Node
drop_unsupported = filter (λ n. not (unsupported n))

unfoldable pub apply : List Node → List Node
apply nodes =
    drop_malware (drop_insecure (drop_open (drop_unsupported (drop_broken (dedup nodes)))))
