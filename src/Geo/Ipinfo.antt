-- ===== src/Geo/Ipinfo.antt =====
-- src/geo/ipinfo.rs: the answer of IPinfo for one address. The JSON object is given by the texts of
-- its fields, or by the parser's error; the numbers of a location are floating-point ones,
-- whose parser and ranges are a parameter.
use chaindash.Base.{
  if◌then◌else◌, not, Text, is_empty, trim, Bool, true, false, ◌&&◌, Option, none, some, [],
}
use chaindash.Collect.Endpoints.{split_once}
use chaindash.Collect.PeerGeo.{Lookup, found, unusable, lookup_error}
use chaindash.Geo.Peers.{NodeResult, ok, err}
use chaindash.Geo.Snapshot.{normalize_country_code}

pub record Coordinates (F : Type 0) : Type 0 where
  pub parse_f64 : Text → Option F
  -- Finite, and between -90 and 90.
  pub is_latitude : F → Bool
  -- Finite, and between -180 and 180.
  pub is_longitude : F → Bool

pub record IpinfoBody : Type 0 where
  pub ip : Option Text
  pub country : Option Text
  pub loc : Option Text

-- `map(str::trim)` and `filter`
abbrev trimmed_if : (Text → Bool) → Option Text → Option Text
trimmed_if keeps none = none
trimmed_if keeps (some s) = if keeps (trim s) then some (trim s) else none

abbrev text_or_empty : Option Text → Text
text_or_empty none = []
text_or_empty (some s) = s

abbrev normalized : Option Text → Option Text
normalized none = none
normalized (some country) = normalize_country_code country

-- An entry, unless there is neither a country nor a location.
abbrev entry_of : Text → Option Text → Option Text → Lookup
entry_of ip none none = unusable
entry_of ip raw_country loc =
    found (record { ip = ip; country = normalized raw_country; loc = loc })

module _ {F : Type 0} (coordinates : Coordinates F) where
  abbrev both : Option F → Option F → Option (F × F)
  both (some lat) (some lng) =
      if coordinates.is_latitude lat && coordinates.is_longitude lng then some (lat, lng) else none
  both lat lng = none

  abbrev parse_pair : Option (Text × Text) → Option (F × F)
  parse_pair none = none
  parse_pair (some (lat, lng)) =
      both (coordinates.parse_f64 (trim lat)) (coordinates.parse_f64 (trim lng))

  unfoldable pub parse_loc : Text → Option (F × F)
  unfolding split_once trim
  parse_loc loc = parse_pair (split_once b',' loc)

  abbrev is_location : Option (F × F) → Bool
  is_location none = false
  is_location (some pair) = true

  unfoldable pub parse_ipinfo_response : NodeResult IpinfoBody → Lookup
  unfolding parse_loc normalize_country_code trim is_empty
  parse_ipinfo_response (err e) = lookup_error e
  parse_ipinfo_response (ok body) =
      entry_of (text_or_empty body.ip) (trimmed_if (λ country. not (is_empty country)) body.country)
        (trimmed_if (λ loc. is_location (parse_loc loc)) body.loc)
