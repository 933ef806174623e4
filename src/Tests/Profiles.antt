-- ===== src/Tests/Profiles.antt =====
-- Ports, authorities and whole URIs of profiles.
use sub_share_go.Common.{[], ◌∷◌, some, true, false, ◌≡◌, refl, arith, All}
use sub_share_go.Common.Result.{ok}
use sub_share_go.Strings.{codes, trim_space, trim_left, trim_right, is_space, split, join}
use sub_share_go.Strings.Decimal.{itoa, digits}
use sub_share_go.Profiles.Percent.{percent_encode_auth, path_unescape}
use sub_share_go.Profiles.Percent.RoundTrip.{path_unescape-percent_encode_auth}
use sub_share_go.Profiles.Ports.{
  PortKind, PortSpec, number_of, parse_port_number, has_space, parse_bounds, parse_port_item,
  parse_port_items, format_range, parse_port_spec,
}
use sub_share_go.Profiles.Ports.RoundTrip.{IsRange}
use sub_share_go.Profiles.Ports.Parsed.{parse_port_spec-canonical}
use sub_share_go.Profiles.Authority.{
  split_raw_host_port, format_host_port, scheme_chars, lower_scheme, split_standard_uri,
  canonical_uri, components,
}
use sub_share_go.Profiles.Authority.HostPort.{split_raw_host_port-format}
use sub_share_go.Profiles.Authority.Parts.{IsUri}
use sub_share_go.Profiles.Authority.Uri.{split_standard_uri-canonical_uri}

abbrev hopping : PortSpec
hopping = record {
  expression = codes "443,5000-6000";
  kind = PortKind.expression;
  ranges = record { start = 443; end = 443 } ∷ record { start = 5000; end = 6000 } ∷ [];
  explicit = false;
}

parse_port_spec-canonical_example :
    All IsRange hopping.ranges
    × ((again : PortSpec) × (parse_port_spec hopping.expression (codes "hysteria2") true ≡ ok again)
        × (again.expression ≡ hopping.expression)
        × (again.ranges ≡ hopping.ranges))
unfolding parse_port_spec trim_space trim_left trim_right is_space split join number_of
    parse_port_number has_space parse_bounds parse_port_item parse_port_items format_range itoa
    digits
parse_port_spec-canonical_example =
    parse_port_spec-canonical (codes "0443,5000-6000") (codes "hysteria2") true hopping refl

-- one port written as a range is no single port, though its canonical expression is
one_port_as_range :
    (parse_port_spec (codes "443-443") (codes "hysteria2") true
      ≡ ok (record {
        expression = codes "443";
        kind = PortKind.expression;
        ranges = record { start = 443; end = 443 } ∷ [];
        explicit = false;
      }))
    × (parse_port_spec (codes "443") (codes "hysteria2") true
        ≡ ok (record {
          expression = codes "443";
          kind = PortKind.single;
          ranges = record { start = 443; end = 443 } ∷ [];
          explicit = false;
        }))
unfolding parse_port_spec trim_space trim_left trim_right is_space split join number_of
    parse_port_number has_space parse_bounds parse_port_item parse_port_items format_range itoa
    digits
one_port_as_range = (refl, refl)

split_raw_host_port-format_example :
    split_raw_host_port (format_host_port (codes "::1") (codes "443")) (codes "tuic")
    ≡ ok (codes "::1", codes "443", true)
split_raw_host_port-format_example =
    split_raw_host_port-format (codes "::1") (codes "443") (codes "tuic") refl
      ((λ e. omega (arith, e)), ((λ e. omega (arith, e)), ((λ e. omega (arith, e)), tt)))
      ((λ e. omega (arith, e)), ((λ e. omega (arith, e)), ((λ e. omega (arith, e)), tt))) refl
      ((λ e. omega (arith, e)), ((λ e. omega (arith, e)), ((λ e. omega (arith, e)), tt)))

path_unescape-percent_encode_auth_example :
    path_unescape (percent_encode_auth (b'a' ∷ b':' ∷ 0xd0 ∷ b'%' ∷ []) true)
    ≡ some (b'a' ∷ b':' ∷ 0xd0 ∷ b'%' ∷ [])
path_unescape-percent_encode_auth_example =
    path_unescape-percent_encode_auth (b'a' ∷ b':' ∷ 0xd0 ∷ b'%' ∷ []) true
      (omega arith, (omega arith, (omega arith, (omega arith, tt))))

tuic_parts : IsUri (codes "tuic") (codes "u") (codes "h:1") (codes "a=b") (b'x' ∷ [])
unfolding is_space scheme_chars lower_scheme
tuic_parts = record {
  scheme_given = refl;
  scheme_valid = refl;
  scheme_lower = refl;
  host_given = refl;
  user_chars =
      ((refl, (λ e. omega (arith, e)), (λ e. omega (arith, e)), (λ e. omega (arith, e))), tt);
  host_chars = (
    (refl, (λ e. omega (arith, e)), (λ e. omega (arith, e)), (λ e. omega (arith, e))),
    (
      (refl, (λ e. omega (arith, e)), (λ e. omega (arith, e)), (λ e. omega (arith, e))),
      ((refl, (λ e. omega (arith, e)), (λ e. omega (arith, e)), (λ e. omega (arith, e))), tt),
    ),
  );
  query_chars = (
    (refl, (λ e. omega (arith, e))),
    ((refl, (λ e. omega (arith, e))), ((refl, (λ e. omega (arith, e))), tt)),
  );
  fragment_bytes = (omega arith, tt);
}

split_standard_uri-canonical_uri_example :
    split_standard_uri
      (λ s. true)
      (canonical_uri (codes "tuic") (codes "u") (codes "h:1") (codes "a=b") (b'x' ∷ []))
      (codes "tuic")
    ≡ ok (components (codes "tuic") (codes "u@h:1") (some (codes "a=b")) (some (b'x' ∷ [])))
split_standard_uri-canonical_uri_example =
    split_standard_uri-canonical_uri (λ s. true) (codes "tuic") (codes "u") (codes "h:1")
      (codes "a=b") (b'x' ∷ []) (codes "tuic") tuic_parts refl
