-- ===== src/Daemon/Tests/Sample.antt =====
-- A small daemon with one share, an identity and an outer world to try daemon/daemon/sync/coordinator.py
-- and daemon/daemon/lan/discovery.py on.
use peerdup.Prelude.{
  ℕ, zero, suc, ◌+◌, ◌*◌, Text, Bytes, codes, true, false, none, some, List, [], ◌∷◌, ◌==◌, text_eq,
}
use peerdup.Registry.Service.{Env}
use peerdup.Daemon.State.{seeding, ConflictStrategy, LocalShare, KnownPeer}
use peerdup.Daemon.Identity.{Identity}
use peerdup.Daemon.World.{World, Daemon, Watch, Handle}
use mathlib.Core.Option.{get_or}
use peerdup.Daemon.Lan.Packet.{pack_packet, Keys, Offer}

abbrev pub repeated : ℕ → ℕ → List ℕ
repeated zero c = []
repeated (suc n) c = c ∷ repeated n c

-- A key is 32 times its letter and its own base58 text, and every signature is 64 sevens.
abbrev pub sevens : Bytes
sevens = repeated 64 7

abbrev pub me : Identity
me = record {
  verify_key_bytes = repeated 32 b'm';
  sign = λ message. sevens;
  b58encode = λ bs. bs;
  b58decode = λ t. some t;
}

abbrev pub keys : Keys
keys = record { b58encode = λ bs. bs; verify_key = λ key message signature. signature == sevens }

abbrev pub music : Text
music = repeated 32 b's'

abbrev pub other : Text
other = repeated 32 b'o'

abbrev pub world : World
world = record {
  own_id = repeated 32 b'm';
  relay_enabled = false;
  clock = λ n. n * 1_000;
  watch_fails = λ n path. false;
  walk_fails = λ n path. false;
  has_files = λ n path. true;
  torrent_cached = λ n share_id. false;
  torrent_hash = λ n source. some (codes "new");
  torrent_error = λ n. codes "failed";
  share_peers = λ n share_id. [];
  share_meta = λ n share_id. none;
  registry_accepts = λ n. true;
  fresh_seed = λ n. repeated 32 n;
  public_key = λ seed. seed;
  time_stamp = λ n. codes "20260101.000000";
  stat = λ n path rel_path. some (1, 2);
  scan = λ n path. [];
}

abbrev pub share : ConflictStrategy → LocalShare
share strategy = record {
  share_id = music;
  name = codes "music";
  local_path = codes "/music";
  permission = codes "rw";
  is_owner = true;
  state = seeding;
  info_hash = some (codes "mine");
  seq = 1;
  last_error = none;
  upload_limit = 0;
  download_limit = 0;
  conflict_strategy = strategy;
  local_only = false;
}

abbrev pub friend : KnownPeer
friend = record {
  share_id = music;
  peer_id = other;
  name = codes "friend";
  addresses = [];
  online = false;
  last_seen = none;
}

abbrev pub stream : Watch
stream = record { share_id = music; stopped = false }

abbrev pub torrent : Handle
torrent = record { share_id = music; info_hash = codes "mine" }

abbrev pub daemon : LocalShare → Daemon
daemon s = record {
  db = record {
    shares = s ∷ [];
    keypairs = [];
    files = [];
    conflicts = [];
    known_peers = friend ∷ [];
  };
  reads = 0;
  handles = torrent ∷ [];
  calls = [];
  watched = music ∷ [];
  watches = stream ∷ [];
  announcing = music ∷ [];
  announced = [];
  renamed = [];
  requests = [];
  last_rebuild = [];
  pending = [];
  rebuilds = [];
  relays = [];
  switching = [];
  events = [];
}

abbrev pub offer : ℕ → Offer
offer n = record { share_id = music; info_hash = codes "theirs"; seq = n }

-- A registry that reads the same keys.
abbrev pub env : Env
env = record {
  b58decode = λ t. some t;
  verify_key = λ key message signature. signature == sevens;
  sha256 = λ t. t;
  token_urlsafe = λ n. (b'0' + n) ∷ [];
  wall_clock = λ n. n * 1_000_000;
  monotonic_clock = λ n. n * 1_000_000_000;
  rate_per_minute = 60;
  burst = none;
  audit_enabled = false;
  metrics_enabled = true;
  loop_running = true;
  start_time = 0;
}

-- The peer `other`, and a share as it announces it.
abbrev pub you : Identity
you = record me { verify_key_bytes = repeated 32 b'o' }

abbrev pub announced : Offer
announced = record { share_id = music; info_hash = repeated 40 b'a'; seq = 2 }

-- What `other` sends.
abbrev pub sent : Bytes
sent = get_or (pack_packet you (announced ∷ []) 4_000 (codes "pal")) []
