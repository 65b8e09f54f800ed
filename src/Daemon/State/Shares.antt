-- ===== src/Daemon/State/Shares.antt =====
-- `StateDB` of daemon/daemon/state/db.py: the shares and their keypairs.
use mathlib.Core.Option.{get_or}
use peerdup.Prelude.{
  ℕ, suc, Text, Bytes, Bool, not, ◌||◌, Option, none, some, List, [], ◌∷◌, ◌++◌, if◌then◌else◌,
  ◌==◌, text_eq, pair_eq, select,
}
use mathlib.Core.Option
use peerdup.Prelude.Table
use peerdup.Daemon.State.{
  ShareState, syncing, ConflictStrategy, LocalShare, ShareKeypair, StateDb, share_key, keypair_key,
}

abbrev pub get_share : Text → StateDb → Option LocalShare
get_share share_id db = Table.find share_key share_id db.shares

abbrev pub list_shares : StateDb → List LocalShare
list_shares db = db.shares

-- The write to one share's row, if it is there.
abbrev pub put_share : Text → (LocalShare → LocalShare) → StateDb → StateDb
put_share share_id f db = record db { shares = Table.update share_key share_id f db.shares }

-- What an added share writes to the row that is there: the strategy and the mode stay.
abbrev pub readd : Text → Text → Text → Bool → LocalShare → LocalShare
readd name local_path permission is_owner r = record r {
  local_path = local_path;
  permission = permission;
  name = name;
  is_owner = is_owner || r.is_owner;
}

abbrev pub new_share : Text → Text → Text → Text → Bool → ConflictStrategy → Bool → LocalShare
new_share share_id name local_path permission is_owner strategy local_only = record {
  share_id = share_id;
  name = name;
  local_path = local_path;
  permission = permission;
  is_owner = is_owner;
  state = syncing;
  info_hash = none;
  seq = 0;
  last_error = none;
  upload_limit = 0;
  download_limit = 0;
  conflict_strategy = strategy;
  local_only = local_only;
}

unfoldable pub add_share :
    Text → Text → Text → Text → Bool → ConflictStrategy → Bool → StateDb → StateDb
add_share share_id name local_path permission is_owner strategy local_only db =
    if Table.has share_key share_id db.shares
    then put_share share_id (readd name local_path permission is_owner) db
    else record db {
      shares =
          db.shares
          ++ new_share share_id name local_path permission is_owner strategy local_only ∷ [];
    }

-- The share's files go with it, if it is there.
unfoldable pub remove_share : Text → StateDb → StateDb
remove_share share_id db =
    if Table.has share_key share_id db.shares
    then record db {
      shares = Table.delete share_key share_id db.shares;
      files = select (λ f. not (f.share_id == share_id)) db.files;
    }
    else db

abbrev pub set_conflict_strategy : Text → ConflictStrategy → StateDb → StateDb
set_conflict_strategy share_id strategy =
    put_share share_id (λ r. record r { conflict_strategy = strategy })

abbrev pub set_share_rate_limits : Text → ℕ → ℕ → StateDb → StateDb
set_share_rate_limits share_id upload_limit download_limit =
    put_share share_id
      (λ r. record r { upload_limit = upload_limit; download_limit = download_limit })

abbrev pub or_old : Option Text → Option Text → Option Text
or_old none old = old
or_old (some t) old = some t

abbrev pub in_state : ShareState → Option Text → Option Text → LocalShare → LocalShare
in_state state last_error info_hash r = record r {
  state = state;
  last_error = last_error;
  info_hash = or_old info_hash r.info_hash;
}

-- The error is forgotten unless a new one is given; without an info hash the old one stays.
abbrev pub set_share_state : Text → ShareState → Option Text → Option Text → StateDb → StateDb
set_share_state share_id state last_error info_hash =
    put_share share_id (in_state state last_error info_hash)

abbrev pub increment_share_seq : Text → StateDb → StateDb
increment_share_seq share_id = put_share share_id (λ r. record r { seq = suc r.seq })

abbrev pub set_share_seq : Text → ℕ → StateDb → StateDb
set_share_seq share_id seq = put_share share_id (λ r. record r { seq = seq })

unfoldable pub save_share_keypair : Text → Bytes → StateDb → StateDb
save_share_keypair share_id seed db =
    if Table.has keypair_key share_id db.keypairs
    then record db {
      keypairs = Table.update keypair_key share_id (λ r. record r { seed = seed }) db.keypairs;
    }
    else record db { keypairs = db.keypairs ++ record { share_id = share_id; seed = seed } ∷ [] }

abbrev pub get_share_keypair : Text → StateDb → Option Bytes
get_share_keypair share_id db =
    Option.map (λ (r : ShareKeypair). r.seed) (Table.find keypair_key share_id db.keypairs)
