-- ===== src/Web/Sources/Examples.antt =====
-- Changes of a whitelist through its handlers.
use sub_manager_vpn.Web.Sources.Refined.{handle-Replies}
use sub_manager_vpn.Web.Sources.Promised.{promised_reply, putting, handle, Replies}
use sub_manager_vpn.Web.Sources.Put.{promised_put}
use sub_manager_vpn.Net.{is_public_literal_ip}
use sub_manager_vpn.Base.Strings.Split.{trim_right_of, trim_left_of, trim_of, split}
use sub_manager_vpn.Registry.{
  normalize_source_url, is_refused_host, source_of, is_https, parse_line, read_lines, read,
}
use sub_manager_vpn.Registry.Spec.{is_listed, promised}
use sub_manager_vpn.Base.{
  to_lower, lower, is_space, trim_left, trim_prefix, text_eq, has_prefix, trim_space, is_empty,
  refl,
}
use sub_manager_vpn.Registry.Views.{view}
use sub_manager_vpn.Base.{◌≡◌, [], ◌∷◌, some, true, codes}
use sub_manager_vpn.Registry.Examples.{sample_file, toy_law}
use sub_manager_vpn.Net.Examples.{toy_net}

-- A source that is switched off comes back switched on when its change is refused.
refused_put_sample :
    promised_put toy_net (codes "hb") (codes "x") (view toy_net sample_file)
    ≡ (400, (codes "ha", true) ∷ (codes "hc", true) ∷ (codes "hb", true) ∷ [])
unfolding promised_put is_empty trim_space promised is_listed read read_lines split parse_line
    has_prefix is_https text_eq source_of trim_prefix is_refused_host is_public_literal_ip
    normalize_source_url trim_left trim_of trim_left_of trim_right_of is_space lower to_lower
refused_put_sample = refl

handle-Replies_example :
    Replies toy_net
      (handle toy_net (putting (codes "hb") (some (codes "x"))) sample_file)
      (promised_reply toy_net (putting (codes "hb") (some (codes "x"))) (view toy_net sample_file))
handle-Replies_example =
    handle-Replies toy_net toy_law (putting (codes "hb") (some (codes "x"))) sample_file
