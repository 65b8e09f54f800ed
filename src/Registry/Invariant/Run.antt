-- ===== src/Registry/Invariant/Run.antt =====
-- The invariant holds after every call, and so after any history from the empty database.
use peerdup.Prelude.{
  Text, Bool, true, ◌≡◌, refl, inl, inr, some, List, [], ◌∷◌, arith, text_eq, pair_eq, Option-cases,
}
use peerdup.Prelude.Table
use peerdup.Prelude.Table.{find-has, find-key}
use peerdup.Registry.Models.{
  AnnouncementRow, Database, empty_database, peer_key, announcement_key, read_write,
}
use peerdup.Registry.Service.{Env, Context, Server}
use peerdup.Registry.Crypto.{extract_bearer_token, hash_token}
use peerdup.Registry.Auth.{authenticated_peer, token_owner, token_hash_of}
use peerdup.Registry.Changes.{drop_rows}
use peerdup.Registry.Effects.{Effect, handle-End}
use peerdup.Registry.Dispatch.{
  Call, register_peer, create_share, get_share, add_peer_to_share, remove_peer_from_share,
  set_share_policy, announce, get_share_peers, watch_share_peers, sweep_tick, handle, run,
}
use peerdup.Registry.Invariant.{IsValid}
use peerdup.Registry.Invariant.Rows.{
  put_peer-IsValid, add_peer-IsValid, put_share-IsValid, add_share-IsValid, put_member-IsValid,
  add_member-IsValid, drop_member-IsValid, put_announcement-IsValid, add_announcement-IsValid,
  drop_announcement-IsValid,
}

-- Who is authenticated is registered.
pub authenticated_peer-has :
    (env : Env) (context : Context) (db : Database) (p : Text)
    → authenticated_peer env context db ≡ some p
    → Table.has peer_key p db.peers ≡ true
unfolding authenticated_peer token_owner
authenticated_peer-has env context db p h = elim (Option-cases (extract_bearer_token context)) [
  | inl e ↦ ground arith
  | inr (token, e) ↦
      elim (Option-cases (Table.find token_hash_of (hash_token env token) db.peers)) [
        | inl n ↦ ground arith
        | inr (peer, found) ↦
            ground
              (arith, find-has token_hash_of peer_key (hash_token env token) db.peers peer found)
      ]
]

drop_rows-IsValid :
    (rows : List AnnouncementRow) (db : Database) → IsValid db → IsValid (drop_rows rows db)
unfolding drop_rows
drop_rows-IsValid [] db v = v
drop_rows-IsValid (a ∷ rest) db v =
    drop_rows-IsValid rest _ (drop_announcement-IsValid db v (announcement_key a))

module _ (env : Env) (context : Context) (s : Server) (v : IsValid s.db) where
  abbrev Keeps : Bool → Database → Type 0
  Keeps _ db = IsValid db

  Effect-Keeps : (call : Call) → Effect env context Keeps s call
  Effect-Keeps (register_peer r) = λ time _. (
    λ _. put_peer-IsValid s.db v r.peer_id _ (λ _. refl),
    λ fresh. add_peer-IsValid s.db v _ fresh,
  )
  Effect-Keeps (create_share r) = λ caller t u auth _ fresh.
      add_share-IsValid s.db v _ read_write u fresh
        (authenticated_peer-has env context s.db caller auth)
  Effect-Keeps (add_peer_to_share r) = λ caller row time auth found owns known. (
    λ _. put_member-IsValid s.db v (r.share_id, r.peer_id) _ (λ _. refl),
    λ fresh. add_member-IsValid s.db v _ fresh (rw found) known,
  )
  Effect-Keeps (remove_peer_from_share r) = λ caller row auth found owns other.
      drop_member-IsValid s.db v r.share_id r.peer_id row found (rw owns other)
  Effect-Keeps (set_share_policy r) =
      λ caller row auth found owns. put_share-IsValid s.db v r.share_id _ (λ _. (refl, refl))
  Effect-Keeps (announce r) = λ auth signed member i j from later. (
    λ row found. put_announcement-IsValid s.db v (r.share_id, r.peer_id) _ (λ _. refl),
    λ fresh. add_announcement-IsValid s.db v _ fresh member,
  )
  Effect-Keeps sweep_tick = drop_rows-IsValid _ s.db v
  Effect-Keeps (get_share i) = λ _. v
  Effect-Keeps (get_share_peers r) = λ _. v
  Effect-Keeps (watch_share_peers r) = λ _. v
  Effect-Keeps _ = v

  -- On a valid database, every call leaves a valid database, however it ends.
  pub handle-IsValid : (call : Call) → IsValid (handle env context call s).1.db
  handle-IsValid call = handle-End env context Keeps s call v (Effect-Keeps call)

-- From a valid database, any history of calls leads to a valid database.
pub run-IsValid :
    (env : Env) (history : List (Context × Call)) (s : Server)
    → IsValid s.db
    → IsValid (run env history s).db
unfolding run
run-IsValid env [] s v = v
run-IsValid env ((context, call) ∷ rest) s v =
    run-IsValid env rest _ (handle-IsValid env context s v call)

pub empty-IsValid : IsValid empty_database
unfolding Table.find
empty-IsValid = record {
  peers_unique = tt;
  shares_unique = tt;
  members_unique = tt;
  announcements_unique = tt;
  owner_is_member = λ i r h. ground arith;
  member_has_share = λ i p h. ground arith;
  member_has_peer = λ i p h. ground arith;
  announced_is_member = λ i p h. ground arith;
}
