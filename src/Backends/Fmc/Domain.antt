-- ===== src/Backends/Fmc/Domain.antt =====
-- src/backends/fmc/domain.ts: the domain that requests are made in.
-- The reply of `GET /info/domain` is a value: the body as `JSON.parse` gives it, or that the call throws.
pub mod Laws
use ftd_metrics_exporter.Prelude.{
  String, Bool, true, false, List, [], ◌∷◌, Option, none, some, str_eq, if◌then◌else◌,
}
use ftd_metrics_exporter.Prelude.Json.{
  Json, null, bool, num, str, arr, obj, Number, Items, Fields, items, get,
}
use ftd_metrics_exporter.Backends.Fields.{FieldRead, ok, malformed, read_optional_string}

pub record FmcDomainInfoItem : Type 0 where
  pub uuid : Option String
  pub name : Option String

abbrev pub value_of : FieldRead String → Option String
value_of (ok value) = value
value_of malformed = none

unfoldable pub parse_items : List Json → List FmcDomainInfoItem
parse_items [] = []
parse_items (obj raw ∷ rest) =
    record {
      uuid = value_of (read_optional_string raw "uuid");
      name = value_of (read_optional_string raw "name");
    }
    ∷ parse_items rest
parse_items (_ ∷ rest) = parse_items rest

abbrev pub array_items : Option Json → List FmcDomainInfoItem
array_items (some (arr raw)) = parse_items (items raw)
array_items _ = []

-- `none` is a body that is no JSON.
unfoldable pub parse_domain_info_items : Option Json → List FmcDomainInfoItem
parse_domain_info_items (some (obj body)) = array_items (get "items" body)
parse_domain_info_items _ = []

abbrev pub is_global : Option String → Bool
is_global none = false
is_global (some name) = str_eq name "Global"

-- `items.find((item) => item.name === 'Global')?.uuid`
unfoldable pub global_uuid : List FmcDomainInfoItem → Option String
global_uuid [] = none
global_uuid (item ∷ rest) =
    let later = global_uuid rest in if is_global item.name then item.uuid else later

-- `items[0]?.uuid`
abbrev pub first_uuid : List FmcDomainInfoItem → Option String
first_uuid [] = none
first_uuid (item ∷ rest) = item.uuid

-- `a ?? b`
abbrev pub or_else : Option String → Option String → Option String
or_else none b = b
or_else (some a) b = some a

pub data InfoReply : Type 0 where
  body : Option Json → InfoReply
  throws : InfoReply

unfoldable pub fetch_domain_via_info_endpoint : InfoReply → Option String
fetch_domain_via_info_endpoint throws = none
fetch_domain_via_info_endpoint (body parsed) =
    let found = parse_domain_info_items parsed in or_else (global_uuid found) (first_uuid found)

unfoldable pub resolve_domain_uuid :
    (configured_domain_uuid domain_uuid_header : Option String) → InfoReply → Option String
resolve_domain_uuid (some configured) header reply = some configured
resolve_domain_uuid none (some header) reply = some header
resolve_domain_uuid none none reply = fetch_domain_via_info_endpoint reply
