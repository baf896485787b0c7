-- ===== src/Geo/Peers.antt =====
-- src/geo/peers.rs: the addresses of the peers, and the results of the nodes. `Ip` stands for `IpAddr`
-- and `to_string` for its format.
pub mod Merge
use chaindash.Base.{
  ◌==◌, if◌then◌else◌, not, Text, codes, sorted_set, Bool, ◌&&◌, Option, none, some, List, [], ◌∷◌,
  ◌++◌, map,
}

pub data NodeResult (A : Type 0) : Type 0 where
  ok : A → NodeResult A
  err : Text → NodeResult A

-- `ips.sort()` and `ips.dedup()`
abbrev pub sort_dedup : NodeResult (List Text) → NodeResult (List Text)
sort_dedup (ok ips) = ok (sorted_set ips)
sort_dedup (err e) = err e

module _ {Ip : Type 0} (to_string : Ip → Text) where
  -- The loop, with the addresses so far.
  unfoldable pub collect_ips : List Text → List (NodeResult (List Ip)) → NodeResult (List Text)
  collect_ips ips [] = ok ips
  collect_ips ips (err e ∷ results) = err (codes "admin_peers failed: " ++ e)
  collect_ips ips (ok node_ips ∷ results) = collect_ips (ips ++ map to_string node_ips) results

  unfoldable pub merge_node_results : List (NodeResult (List Ip)) → NodeResult (List Text)
  unfolding collect_ips sorted_set
  merge_node_results results = sort_dedup (collect_ips [] results)

-- What the standard library says of an address. `is_v4` tells the two kinds apart; the tests that one
-- kind lacks are not asked of it.
pub record AddressTests (Ip : Type 0) : Type 0 where
  pub parse_socket : Text → Option Ip
  pub parse_ip : Text → Option Ip
  pub is_v4 : Ip → Bool
  pub is_unspecified : Ip → Bool
  pub is_loopback : Ip → Bool
  pub is_private : Ip → Bool
  pub is_link_local : Ip → Bool
  pub is_multicast : Ip → Bool
  pub is_broadcast : Ip → Bool
  pub is_unique_local : Ip → Bool
  pub is_unicast_link_local : Ip → Bool

-- The text in front of the first `]`.
unfoldable pub before_bracket : Text → Text
before_bracket [] = []
before_bracket (c ∷ s) = let rest = before_bracket s in if c == b']' then [] else c ∷ rest

-- `rsplit_once(':')`: the host, if there is a colon.
unfoldable pub host_before_port : Text → Option Text
host_before_port [] = none
host_before_port (c ∷ s) =
    let rest = host_before_port s in
    elim rest [ some host ↦ some (c ∷ host) | none ↦ if c == b':' then some [] else none ]

abbrev host_of : Text → Text
host_of [] = []
host_of (c ∷ s) =
    if c == b'['
    then before_bracket s
    else elim (host_before_port (c ∷ s)) [ some host ↦ host | none ↦ c ∷ s ]

module _ {Ip : Type 0} (tests : AddressTests Ip) where
  unfoldable pub ip_from_remote_address : Text → Option Ip
  unfolding before_bracket host_before_port
  ip_from_remote_address remote_address = elim (tests.parse_socket remote_address) [
    | some ip ↦ some ip
    | none ↦ elim (tests.parse_ip remote_address) [
      | some ip ↦ some ip
      | none ↦ tests.parse_ip (host_of remote_address)
    ]
  ]

  unfoldable pub is_enrichable : Ip → Bool
  is_enrichable ip =
      if tests.is_v4 ip
      then not (tests.is_unspecified ip)
        && not (tests.is_loopback ip)
        && not (tests.is_private ip)
        && not (tests.is_link_local ip)
        && not (tests.is_multicast ip)
        && not (tests.is_broadcast ip)
      else not (tests.is_unspecified ip)
        && not (tests.is_loopback ip)
        && not (tests.is_unique_local ip)
        && not (tests.is_unicast_link_local ip)
        && not (tests.is_multicast ip)

  -- `parse_peer_ips`, given the `network.remoteAddress` of each peer, where it is a text.
  unfoldable pub parse_peer_ips : List (Option Text) → List Ip
  unfolding ip_from_remote_address
  parse_peer_ips [] = []
  parse_peer_ips (none ∷ peers) = parse_peer_ips peers
  parse_peer_ips (some address ∷ peers) =
      let rest = parse_peer_ips peers in
      elim (ip_from_remote_address address) [ some ip ↦ ip ∷ rest | none ↦ rest ]
