-- ===== src/Tests/Fixtures.antt =====
-- Instances of what the models are given: a table of letters, formats, addresses and expressions.
use sub_share_go.Common.{[], ◌∷◌, Option, none, some, true, false, ℕ, ◌==◌, text, refl, pos}
use sub_share_go.Strings.{Text, Unicode, codes, contains_text}
use sub_share_go.Subscription.Fields.{Formats, OptionalString, OptionalInt}
use sub_share_go.Middleware.ClientIp.{Net}
use sub_share_go.ResponseRules.{Http}

-- beyond ASCII no letter has another case
instance abbrev pub ascii : Unicode
ascii = record { lower_table = λ c. c; upper_table = λ c. c }

-- one digit is an instant, and every URL is that of one host
abbrev pub instant_of : Text → Option ℕ
instant_of (c ∷ []) = some c
instant_of _ = none

abbrev pub formats : Formats
formats = record {
  Location = Unit;
  utc = tt;
  load_location = λ zone. none;
  parse_rfc3339 = instant_of;
  parse_in_location = λ layout raw location. none;
  parse_request_uri = λ raw. some (record {
    host = codes "example.com";
    has_user = false;
    scheme = codes "https";
    printed = raw;
  });
}

-- an address is its text, and a network is one address
abbrev pub address_of : Text → Option Text
address_of [] = none
address_of (c ∷ s) = some (c ∷ s)

abbrev pub net : Net
net = record {
  Ip = Text;
  Network = Text;
  parse_ip = address_of;
  parse_ip-empty = refl;
  includes = λ network ip. network == ip;
  split_host = λ raw. some raw;
}

-- an expression is a text that is looked for
abbrev pub http : Http
http = record {
  compile = λ expression. some (λ actual. contains_text actual expression);
  canonical_header_key = λ key. key;
}

abbrev pub omitted : OptionalString
omitted = record { value = []; is_set = false; is_null = false }

abbrev pub set_to : Text → OptionalString
set_to value = record { value = value; is_set = true; is_null = false }

abbrev pub no_hours : OptionalInt
no_hours = record { value = pos 0; is_set = false; is_null = false }
