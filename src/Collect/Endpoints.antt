-- ===== src/Collect/Endpoints.antt =====
-- The options that src/collect/collector.rs reads when it is made: the endpoints, each a name and a
-- websocket URL, and the ids of the nodes. `is_websocket_endpoint` is of
-- src/collect/block_subscription.rs and `websocket_host` of src/collect/node_state.rs.
pub mod Urls
pub mod Ids
pub mod Hosts
use chaindash.Base.{
  ◌==◌, if◌then◌else◌, not, length, drop, Text, codes, is_empty, trim, starts_with, contains, ℕ,
  zero, suc, Bool, ◌&&◌, ◌||◌, Option, none, some, List, [], ◌∷◌, ◌++◌,
}

abbrev first_piece : ℕ → List Text → List Text
first_piece c [] = (c ∷ []) ∷ []
first_piece c (piece ∷ pieces) = (c ∷ piece) ∷ pieces

-- `str::split` at a character
unfoldable pub split : ℕ → Text → List Text
split sep [] = [] ∷ []
split sep (c ∷ s) = let rest = split sep s in if c == sep then [] ∷ rest else first_piece c rest

abbrev after_first : ℕ → Option (Text × Text) → Option (Text × Text)
after_first c none = none
after_first c (some (before, after)) = some (c ∷ before, after)

-- `str::split_once` at a character
unfoldable pub split_once : ℕ → Text → Option (Text × Text)
split_once sep [] = none
split_once sep (c ∷ s) =
    let rest = split_once sep s in if c == sep then some ([], s) else after_first c rest

unfoldable pub is_websocket_endpoint : Text → Bool
unfolding starts_with
is_websocket_endpoint url = starts_with (codes "ws://") url || starts_with (codes "wss://") url

-- `trim_start_matches` drops the prefix as often as it stands there; the fuel is the length.
unfoldable pub trim_start_matches : ℕ → Text → Text → Text
unfolding starts_with
trim_start_matches zero prefix s = s
trim_start_matches (suc fuel) prefix s =
    let rest = trim_start_matches fuel prefix (drop (length prefix) s) in
    if starts_with prefix s then rest else s

unfoldable pub websocket_host : Text → Text
unfolding trim_start_matches
websocket_host url =
    let once = trim_start_matches (length url) (codes "ws://") url in
    trim_start_matches (length once) (codes "wss://") once

pub data UrlList : Type 0 where
  parsed : List (Text × Text) → UrlList
  invalid : Text → UrlList

abbrev checked : Text → Text → UrlList → UrlList
checked name endpoint (invalid e) = invalid e
checked name endpoint (parsed urls) = parsed ((name, endpoint) ∷ urls)

-- What is wrong with one entry, or its name and endpoint; the rest decides only after it.
abbrev pub parse_entry : Text → Option (Text × Text) → UrlList → UrlList
parse_entry url none rest = invalid (codes "invalid url format: " ++ url)
parse_entry url (some (name, endpoint)) rest =
    if is_websocket_endpoint endpoint
    then checked name endpoint rest
    else invalid (codes "invalid websocket url for " ++ (name ++ (codes ": " ++ endpoint)))

-- `map` and `collect::<Result<…>>`: the first error.
unfoldable pub parse_all : List Text → UrlList
unfolding split_once is_websocket_endpoint
parse_all [] = parsed []
parse_all (url ∷ urls) = parse_entry url (split_once b'@' url) (parse_all urls)

unfoldable pub parse_urls : Text → UrlList
unfolding split parse_all
parse_urls url = parse_all (split b',' url)

abbrev pub add_node_id : List Text → Text → List Text
add_node_id node_ids node_id =
    if not (is_empty node_id) && not (contains node_ids node_id)
    then node_ids ++ node_id ∷ []
    else node_ids

-- The loop over the options, with the ids so far.
unfoldable pub unique_node_ids : List Text → List Text → List Text
unfolding trim contains is_empty
unique_node_ids node_ids [] = node_ids
unique_node_ids node_ids (node_id ∷ rest) =
    unique_node_ids (add_node_id node_ids (trim node_id)) rest
