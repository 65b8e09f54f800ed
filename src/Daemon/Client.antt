-- ===== src/Daemon/Client.antt =====
-- The client of the registry: daemon/daemon/registry/client.py, and the two views of it in
-- daemon/daemon/sync/coordinator.py. The stub and the channels are gRPC's: an RPC is given by its outcome,
-- none where it raises.

pub mod Token
pub mod Connecting
pub mod Streams
use peerdup.Prelude.{
  ℕ, ◌-◌, ◌/◌, Text, Bytes, codes, truthy, ℤ, pos, negsuc, Bool, true, false, ◌&&◌, Option, none,
  some, List, [], ◌∷◌, ◌++◌, if◌then◌else◌, ◌==◌, text_eq,
}
use mathlib.Core.Option
use mathlib.Core.Option.{get_or}
use peerdup.Registry.Models.{PeerAddress}
use peerdup.Registry.Messages.{
  SharePeer, AnnounceRequest, AnnounceResponse, GetSharePeersRequest, GetSharePeersResponse,
  WatchSharePeersRequest, CreateShareRequest, AddPeerToShareRequest, RemovePeerFromShareRequest,
  HealthResponse, HealthStatus, healthy,
}

-- What a channel is opened with: the certificates of `_build_credentials`, or nothing.
pub data Channel : Type 0 where
  insecure : Channel
  secure : Option Bytes → Option (Bytes × Bytes) → Channel

-- The monotonic clock counts milliseconds.
pub record RegistryClient : Type 0 where
  pub address : Text
  pub tls : Bool
  pub ca_file : Option Text
  pub cert_file : Option Text
  pub key_file : Option Text
  pub token : Option Text
  pub channel : Option Channel
  pub last_rpc_ok_at : Option ℕ

-- Python's `bool` of an optional text.
abbrev pub is_given : Option Text → Bool
is_given none = false
is_given (some t) = truthy t

abbrev pub is_configured : RegistryClient → Bool
is_configured c = truthy c.address

abbrev pub mtls_configured : RegistryClient → Bool
mtls_configured c = is_given c.cert_file && is_given c.key_file

-- `_BearerInterceptor._inject`
unfoldable pub inject : Option Text → Option (List (Text × Text)) → Option (List (Text × Text))
inject token metadata =
    if is_given token
    then some
        (get_or metadata [] ++ (codes "authorization", codes "Bearer " ++ get_or token []) ∷ [])
    else metadata

infixl 5 ◌>>=◌
abbrev ◌>>=◌ : {A B : Type 0} → Option A → (A → Option B) → Option B
none >>= f = none
some a >>= f = f a

module _ (read : Text → Option Bytes) where
  -- The certificates of the authority, and the pair of a certificate and a key; a file that is not there
  -- raises.
  abbrev root_certs : Option Text → Option (Option Bytes)
  root_certs ca_file =
      if is_given ca_file then Option.map some (read (get_or ca_file [])) else some none

  abbrev read_pair : Text → Text → Option (Option (Bytes × Bytes))
  read_pair cert_file key_file = do
    cert ← read cert_file
    key ← read key_file
    some (some (cert, key))

  abbrev key_pair : RegistryClient → Option (Option (Bytes × Bytes))
  key_pair c =
      if mtls_configured c
      then read_pair (get_or c.cert_file []) (get_or c.key_file [])
      else some none

  -- `_build_credentials`
  unfoldable pub build_credentials : RegistryClient → Option Channel
  build_credentials c = do ca ← root_certs c.ca_file; pair ← key_pair c; some (secure ca pair)

  -- `connect`
  unfoldable pub connect : RegistryClient → Option RegistryClient
  unfolding build_credentials
  connect c =
      if is_configured c
      then Option.map (λ channel. record c { channel = some channel })
          (if c.tls then build_credentials c else some insecure)
      else some c

-- The rest of `register_peer` once the registry has answered with a token at a time.
abbrev pub registered : Text → ℕ → RegistryClient → RegistryClient
registered token now c = record c { token = some token; last_rpc_ok_at = some now }

-- `announce`: the request, and what is read of the answer
abbrev pub announce_request : Text → Text → List PeerAddress → ℕ → Bytes → Text → AnnounceRequest
announce_request share_id peer_id internal_addrs ttl_seconds signature info_hash = record {
  share_id = share_id;
  peer_id = peer_id;
  internal_addrs = internal_addrs;
  ttl_seconds = ttl_seconds;
  signature = signature;
  info_hash = info_hash;
}

abbrev pub announced : AnnounceResponse → Text × (ℕ × ℕ)
announced r = (r.observed_external.host, (r.observed_external.port, r.ttl_seconds))

-- `Permission.Value` on the names of the enumeration in registry.proto
abbrev pub permission_value : Text → Option ℤ
permission_value name =
    if name == codes "PERMISSION_READ_WRITE"
    then some (pos 1)
    else if name == codes "PERMISSION_READ_ONLY"
    then some (pos 2)
    else if name == codes "PERMISSION_ENCRYPTED"
    then some (pos 3)
    else if name == codes "PERMISSION_UNSPECIFIED"
    then some (pos 0)
    else none

-- `add_peer_to_share`
unfoldable pub add_peer_to_share_request : Text → Text → Text → Option AddPeerToShareRequest
add_peer_to_share_request share_id peer_id permission_name = do
  permission ← permission_value permission_name
  some (record { share_id = share_id; peer_id = peer_id; permission = permission })

-- `health`: whether the registry is well, where `now` is the time of its answer
unfoldable pub health : Option HealthResponse → ℕ → RegistryClient → Bool × RegistryClient
health none now c = (false, c)
health (some r) now c =
    (elim r.status [ healthy ↦ true | _ ↦ false ], record c { last_rpc_ok_at = some now })

-- `last_rpc_ok_ago_s`
unfoldable pub last_rpc_ok_ago_s : ℕ → RegistryClient → ℤ
last_rpc_ok_ago_s now c = elim c.last_rpc_ok_at [
  | none ↦ negsuc 0
  | some at ↦ pos ((now - at) / 1_000)
]

pub data Health : Type 0 where
  not_configured unreachable : Health
  answered : HealthResponse → Health

-- `health_detail`, and `registry_health` of the coordinator
unfoldable pub registry_health :
    Option HealthResponse → ℕ → RegistryClient → Health × RegistryClient
registry_health response now c =
    if is_configured c
    then elim response [
      | none ↦ (unreachable, c)
      | some r ↦ (answered r, record c { last_rpc_ok_at = some now })
    ]
    else (not_configured, c)

pub data ConnectionState : Type 0 where
  unset connected disconnected : ConnectionState

pub record RegistryStatus : Type 0 where
  pub registry_address : Text
  pub tls_enabled : Bool
  pub ca : Text
  pub mtls : Bool
  pub connection_state : ConnectionState
  pub last_rpc_ok_ago : ℤ
  pub token_valid : Bool

-- `registry_status`; `unset` is the text "not_configured"
unfoldable pub registry_status : ℕ → RegistryClient → RegistryStatus
unfolding last_rpc_ok_ago_s
registry_status now c = record {
  registry_address = c.address;
  tls_enabled = c.tls;
  ca = get_or c.ca_file [];
  mtls = mtls_configured c;
  connection_state =
      if is_configured c then (if is_given c.token then connected else disconnected) else unset;
  last_rpc_ok_ago = last_rpc_ok_ago_s now c;
  token_valid = is_given c.token;
}
