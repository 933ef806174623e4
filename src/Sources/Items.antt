-- ===== src/Sources/Items.antt =====
-- internal/sources/types.go, refs.go and parse_links.go: the items of a parsed feed, their counts and
-- the removal of duplicates.
pub mod Counted
pub mod Deduplicated
use sub_share_go.Common.{
  ℕ, zero, suc, ◌+◌, List, [], ◌∷◌, ◌++◌, Bool, true, false, not, ◌&&◌, ◌||◌, if◌then◌else◌,
  contains, text, ◌==◌,
}
use sub_share_go.Strings.{Text, codes, trim_space, is_empty, contains_text, has_prefix}

pub data ImportStatus : Type 0 where
  accepted added rejected duplicate updated unchanged : ImportStatus
  compatibility_only ambiguous unsupported : ImportStatus

pub record ParsedKey : Type 0 where
  pub label : Text
  pub url : Text
  pub scheme : Text
  pub protocol : Text
  pub host : Text
  pub port : Text
  pub ref : Text
  pub item_ref : Text
  pub line_index : ℕ
  pub compatibility : Text
  pub profile_schema_version : ℕ
  pub fingerprint : Text
  pub fingerprint_candidates : List Text
  pub warning_codes : List Text
  pub initial_status : ImportStatus

pub record ImportItem : Type 0 where
  pub item_ref : Text
  pub line_index : ℕ
  pub protocol : Text
  pub scheme : Text
  pub display_name : Text
  pub label : Text
  pub host : Text
  pub port : Text
  pub compatibility : Text
  pub status : ImportStatus
  pub warnings : List Text
  pub error_code : Text
  pub url_short : Text

pub record Counts : Type 0 where
  pub accepted : ℕ
  pub added : ℕ
  pub rejected : ℕ
  pub duplicate : ℕ
  pub updated : ℕ
  pub unchanged : ℕ
  pub compatibility_only : ℕ
  pub ambiguous : ℕ
  pub unsupported : ℕ
  pub removed : ℕ

abbrev pub no_counts : Counts
no_counts = record {
  accepted = 0;
  added = 0;
  rejected = 0;
  duplicate = 0;
  updated = 0;
  unchanged = 0;
  compatibility_only = 0;
  ambiguous = 0;
  unsupported = 0;
  removed = 0;
}

unfoldable pub contains_warning_code : List Text → List Text → Bool
contains_warning_code [] wanted = false
contains_warning_code (code ∷ rest) wanted =
    contains wanted code || contains_warning_code rest wanted

unfoldable pub has_ambiguity_warning : List Text → Bool
has_ambiguity_warning warnings =
    contains_warning_code warnings
      (codes "ambiguous_parameter" ∷ codes "conflicting_preference" ∷ [])

unfoldable pub count_status : ImportStatus → Counts → Counts
count_status ImportStatus.accepted c = record c { accepted = suc c.accepted }
count_status ImportStatus.added c = record c { added = suc c.added }
count_status ImportStatus.rejected c = record c { rejected = suc c.rejected }
count_status ImportStatus.duplicate c = record c { duplicate = suc c.duplicate }
count_status ImportStatus.updated c = record c { updated = suc c.updated }
count_status ImportStatus.unchanged c = record c { unchanged = suc c.unchanged }
count_status ImportStatus.unsupported c = record c { unsupported = suc c.unsupported }
count_status _ c = c

unfoldable pub is_compatibility_only : ImportStatus → Bool
is_compatibility_only ImportStatus.compatibility_only = true
is_compatibility_only _ = false

unfoldable pub is_ambiguous : ImportStatus → Bool
is_ambiguous ImportStatus.ambiguous = true
is_ambiguous _ = false

-- one round of the loop of `CountItems`
unfoldable pub count_item : ImportItem → Counts → Counts
count_item item c =
    let read_only = item.compatibility == codes "read_only" in
    let c' =
      if read_only || is_compatibility_only item.status
      then record c { compatibility_only = suc c.compatibility_only }
      else c in
    let c'' =
      if has_ambiguity_warning item.warnings || is_ambiguous item.status
      then record c' { ambiguous = suc c'.ambiguous }
      else c' in
    count_status item.status c''

unfoldable pub count_items_from : Counts → List ImportItem → Counts
count_items_from c [] = c
count_items_from c (item ∷ items) = count_items_from (count_item item c) items

unfoldable pub count_items : List ImportItem → Counts
count_items items = count_items_from no_counts items

unfoldable pub bracket_host : Text → Text
bracket_host host =
    if contains_text host (b':' ∷ []) && not (has_prefix host (b'[' ∷ []))
    then b'[' ∷ host ++ b']' ∷ []
    else host

unfoldable pub safe_endpoint_summary : Text → Text → Text → Text
safe_endpoint_summary protocol raw_host raw_port =
    let host = trim_space raw_host in
    let port = trim_space raw_port in
    if is_empty host
    then protocol
    else if is_empty port
    then host
    else bracket_host host ++ b':' ∷ port

unfoldable pub safe_external_item : ParsedKey → ImportStatus → Text → ImportItem
safe_external_item key status error_code = record {
  item_ref = key.item_ref;
  line_index = key.line_index;
  protocol = key.protocol;
  scheme = key.scheme;
  display_name = key.label;
  label = key.label;
  host = key.host;
  port = key.port;
  compatibility = key.compatibility;
  status = status;
  warnings = key.warning_codes;
  error_code = error_code;
  url_short = safe_endpoint_summary key.protocol key.host key.port;
}

unfoldable pub external_dedupe_identity : ParsedKey → Text
external_dedupe_identity key =
    if not (is_empty key.fingerprint)
    then codes "profile:" ++ key.fingerprint
    else codes "raw:" ++ key.ref

-- what a parser collects: `keys`, `items` and the set `seen`
pub record Collected : Type 0 where
  pub keys : List ParsedKey
  pub items : List ImportItem
  pub seen : List Text

unfoldable pub append_external_parsed_item : ParsedKey → Collected → Collected
append_external_parsed_item key c =
    let identity = external_dedupe_identity key in
    if contains c.seen identity
    then record c { items = c.items ++ safe_external_item key ImportStatus.duplicate [] ∷ [] }
    else record {
      keys = c.keys ++ key ∷ [];
      items = c.items ++ safe_external_item key key.initial_status [] ∷ [];
      seen = identity ∷ c.seen;
    }

-- the parser's loop over the keys that it reads
unfoldable pub append_all : List ParsedKey → Collected → Collected
append_all [] c = c
append_all (key ∷ keys) c = append_all keys (append_external_parsed_item key c)
