-- ===== src/Daemon/Views/Roster.antt =====
-- `list_share_peers` of daemon/daemon/sync/coordinator.py: everybody who is granted a share or known in it.

use peerdup.Prelude.{
  ℕ, Text, codes, take, truthy, Bool, true, false, not, ◌&&◌, Option, none, some, List, [], ◌∷◌,
  ◌++◌, map, length, if◌then◌else◌, eqb, ltb, ◌==◌, text_eq, select,
}
use peerdup.Prelude.Table
use peerdup.Prelude.Table.{is_some, passes}
use peerdup.Registry.Models.{PeerAddress}
use peerdup.Registry.Messages.{
  Permission, unspecified, read_write, read_only, encrypted, SharePeer, Share,
}
use peerdup.Daemon.State.{LocalShare, KnownPeer, StateDb}
use peerdup.Daemon.State.Shares.{get_share}
use peerdup.Daemon.State.Records.{list_all_known_peers}
use peerdup.Daemon.Views.{told, local_in}

pub record RosterRow : Type 0 where
  pub peer_id : Text
  pub name : Text
  pub permission : Text
  pub online : Bool
  pub is_self : Bool
  pub is_owner : Bool
  pub last_seen : Option ℕ
  pub addresses : List PeerAddress

abbrev pub row_key : RosterRow → Text
row_key r = r.peer_id

abbrev pub granted_key : SharePeer → Text
granted_key p = p.peer_id

abbrev pub known_key : KnownPeer → Text
known_key p = p.peer_id

pub record SharePeers : Type 0 where
  pub share_name : Text
  pub peers : List RosterRow
  pub total_online : ℕ

-- `perm_map`
unfoldable pub permission_name : Permission → Text
permission_name read_write = codes "rw"
permission_name read_only = codes "ro"
permission_name encrypted = codes "encrypted"
permission_name unspecified = codes "unknown"

abbrev pub permission_shown : Option SharePeer → Bool → Text
permission_shown (some p) local_only = permission_name p.permission
permission_shown none local_only = if local_only then codes "rw" else codes "unknown"

-- The name in the registry, the name that the peer announced, or the start of its identity.
abbrev pub name_shown : Text → Option SharePeer → Option KnownPeer → Text
name_shown peer_id (some p) known = p.name
name_shown peer_id none (some k) = if truthy k.name then k.name else take 8 peer_id
name_shown peer_id none none = take 8 peer_id

-- The keys of both tables, each once.
unfoldable pub distinct : List Text → List Text
distinct [] = []
distinct (k ∷ ks) = k ∷ select (λ j. not (j == k)) (distinct ks)

-- The sort key: ourselves first, then who is online, then the rest.
unfoldable pub rank : RosterRow → ℕ
rank r = if r.is_self then (if r.online then 0 else 1) else if r.online then 2 else 3

unfoldable pub text_ltb : Text → Text → Bool
text_ltb [] [] = false
text_ltb [] (y ∷ t) = true
text_ltb (x ∷ s) [] = false
text_ltb (x ∷ s) (y ∷ t) = let rest = text_ltb s t in if eqb x y then rest else ltb x y

abbrev pub granted_peers : Option LocalShare → Option Share → List SharePeer
granted_peers row answer = elim (told (local_in row) answer) [ none ↦ [] | some r ↦ r.peers ]

abbrev title : Text → Option LocalShare → Option Share → Text
title share_id row answer = elim row [
  | none ↦ elim answer [ none ↦ take 8 share_id | some r ↦ r.name ]
  | some s ↦
      if s.local_only
      then (if truthy s.name then s.name else take 8 share_id)
      else elim answer [ none ↦ take 8 share_id | some r ↦ r.name ]
]

-- `own_id` is the daemon's own identity, and `lower` is `str.lower`.
module _ (own_id : Text) (lower : Text → Text) where
  unfoldable pub before : RosterRow → RosterRow → Bool
  unfolding rank text_ltb
  before x y =
      if eqb (rank x) (rank y)
      then text_ltb (lower x.name) (lower y.name)
      else ltb (rank x) (rank y)

  -- `list.sort`, which leaves rows of one key in their order
  unfoldable pub insert_row : RosterRow → List RosterRow → List RosterRow
  insert_row x [] = x ∷ []
  insert_row x (y ∷ ys) = let rest = insert_row x ys in if before y x then y ∷ rest else x ∷ y ∷ ys

  unfoldable pub sort_rows : List RosterRow → List RosterRow
  sort_rows [] = []
  sort_rows (x ∷ xs) = insert_row x (sort_rows xs)

  -- One peer of the roster.
  unfoldable pub roster_row :
      Option LocalShare → Option SharePeer → Option KnownPeer → Text → RosterRow
  roster_row row granted known peer_id =
      let online = passes (λ (k : KnownPeer). k.online) known in
      let is_self = peer_id == own_id in
      record {
        peer_id = peer_id;
        name = name_shown peer_id granted known;
        permission = permission_shown granted (local_in row);
        online = online;
        is_self = is_self;
        is_owner = passes (λ (s : LocalShare). s.is_owner) row && is_self;
        last_seen = elim known [ none ↦ none | some k ↦ k.last_seen ];
        addresses = elim known [ none ↦ [] | some k ↦ if online then k.addresses else [] ];
      }

  -- The rows of the union of those who are granted the share and those who are known in it; both name a
  -- peer once.
  unfoldable pub roster : Option LocalShare → List SharePeer → List KnownPeer → List RosterRow
  unfolding distinct sort_rows roster_row
  roster row granted known = sort_rows (
      map (λ p. roster_row row (Table.find granted_key p granted) (Table.find known_key p known) p)
        (distinct (map granted_key granted ++ map known_key known)))

  -- `list_share_peers`
  unfoldable pub list_share_peers : (Text → Option Share) → Text → StateDb → SharePeers
  unfolding roster
  list_share_peers registry share_id db =
      let row = get_share share_id db in
      let rows =
        roster row (granted_peers row (registry share_id)) (list_all_known_peers share_id db) in
      record {
        share_name = title share_id row (registry share_id);
        peers = rows;
        total_online = length (select (λ r. r.online) rows);
      }
