-- ===== src/Registry/Credentials.antt =====
-- Registration and the bearer token: the new token is the peer's, and the old one is nobody's.
use peerdup.Prelude.{
  Text, truthy, Bool, true, false, ◌≡◌, ◌≢◌, sym, ◌∙◌, ap, inl, inr, none, some, List, [], ◌∷◌,
  arith, ◌==◌, text_eq, text_beq_iff, Option-cases, Bool-cases,
}
use peerdup.Prelude.Table
use peerdup.Prelude.Table.{IsUnique, find-has, find-append, find-key}
use peerdup.Registry.Models.{PeerRow, Database, peer_key}
use peerdup.Registry.Messages.{RegisterPeerRequest, RegisterPeerResponse}
use peerdup.Registry.Service.{Env, Context, Server, done, log}
use peerdup.Registry.Crypto.{extract_bearer_token, hash_token, verify_register_peer}
use peerdup.Registry.Auth.{token_hash_of, token_owner, authenticated_peer}
use peerdup.Registry.Peers.{rotate, put_peer, add_peer, register_peer_rpc}
use peerdup.Registry.Rules.{is_aborted}
use peerdup.Registry.Changes.{new_peer, register_peer_cases}

find-rotate :
    (p h name : Text) (row : PeerRow) (xs : List PeerRow)
    → Table.find token_hash_of h xs ≡ none
    → Table.find peer_key p xs ≡ some row
    → Table.find token_hash_of h (Table.update peer_key p (rotate name h) xs)
      ≡ some (rotate name h row)
unfolding Table.find Table.update
find-rotate p h name row [] new found = ground arith
find-rotate p h name row (x ∷ xs) new found =
    ground (arith, text_beq_iff h h, find-rotate p h name row xs)

find-rotated :
    (p h name : Text) (row : PeerRow) (xs : List PeerRow)
    → IsUnique token_hash_of xs
    → Table.find peer_key p xs ≡ some row
    → (h == row.token_hash) ≡ false
    → Table.find token_hash_of row.token_hash (Table.update peer_key p (rotate name h) xs) ≡ none
unfolding Table.find Table.update
find-rotated p h name row [] u found other = ground arith
find-rotated p h name row (x ∷ xs) u found other = ground (
  arith,
  text_beq_iff x.token_hash row.token_hash,
  find-rotated p h name row xs u.1,
  find-has peer_key token_hash_of p xs row,
)

authenticated_as :
    (env : Env) (context : Context) (db : Database) (token : Text) (row : PeerRow)
    → extract_bearer_token context ≡ some token
    → truthy token ≡ true
    → Table.find token_hash_of (hash_token env token) db.peers ≡ some row
    → authenticated_peer env context db ≡ some row.peer_id
unfolding authenticated_peer token_owner
authenticated_as env context db token row e t found = ground arith

nobody :
    (env : Env) (context : Context) (db : Database) (token : Text)
    → extract_bearer_token context ≡ some token
    → Table.find token_hash_of (hash_token env token) db.peers ≡ none
    → authenticated_peer env context db ≡ none
unfolding authenticated_peer token_owner
nobody env context db token e missing = elim (Bool-cases (truthy token)) [
  | inl t ↦ ground arith
  | inr f ↦ ground arith
]

module _ (env : Env) (context later : Context) (r : RegisterPeerRequest) (s : Server) where
  pub registered_token :
      (reply : RegisterPeerResponse)
      → (register_peer_rpc env context r s).0 ≡ done reply
      → reply.token ≡ env.token_urlsafe s.tokens_made
  unfolding register_peer_rpc log
  registered_token reply e =
      elim (Bool-cases (verify_register_peer env r.peer_id r.name r.signature)) [
        | inr f ↦ ground arith
        | inl v ↦ elim (Option-cases (Table.find peer_key r.peer_id s.db.peers)) [
          | inl n ↦ ground arith
          | inr (row, found) ↦ ground arith
        ]
      ]

  abbrev pub next_token : Text
  next_token = env.token_urlsafe s.tokens_made

  abbrev pub next_hash : Text
  next_hash = hash_token env next_token

  abbrev Known : Bool → Database → Type 0
  Known b db = b ≡ false → authenticated_peer env later db ≡ some r.peer_id

  pub next_token_authenticates :
      is_aborted (register_peer_rpc env context r s).0 ≡ false
      → extract_bearer_token later ≡ some next_token
      → truthy next_token ≡ true
      → Table.find token_hash_of next_hash s.db.peers ≡ none
      → authenticated_peer env later (register_peer_rpc env context r s).1.db ≡ some r.peer_id
  next_token_authenticates passed carried full fresh =
      register_peer_cases env context Known s r (λ b. cc)
        (λ time v. (
          λ has b. elim (Option-cases (Table.find peer_key r.peer_id s.db.peers)) [
            | inl n ↦ ground arith
            | inr (row, found) ↦
                authenticated_as env later (put_peer r.peer_id (rotate r.name next_hash) s.db)
                  next_token (rotate r.name next_hash row) carried full
                  (find-rotate r.peer_id next_hash r.name row s.db.peers fresh found)
                ∙ ap some (find-key peer_key r.peer_id s.db.peers row found)
          ],
          λ new b.
              let row = new_peer r.peer_id r.name next_hash time in
              authenticated_as env later (add_peer row s.db) next_token row carried full (
                ground (
                  arith,
                  find-append token_hash_of next_hash s.db.peers row,
                  text_beq_iff next_hash next_hash,
                )),
        ))
        passed

  -- After a registration that answers with a token, a call that carries this token is authenticated
  -- as the peer, if the token is not empty and its hash was not in the table before.
  pub new_token_authenticates :
      (reply : RegisterPeerResponse)
      → (register_peer_rpc env context r s).0 ≡ done reply
      → extract_bearer_token later ≡ some reply.token
      → truthy reply.token ≡ true
      → Table.find token_hash_of (hash_token env reply.token) s.db.peers ≡ none
      → authenticated_peer env later (register_peer_rpc env context r s).1.db ≡ some r.peer_id
  new_token_authenticates reply e carried full fresh =
      let t = registered_token reply e in
      next_token_authenticates (ap is_aborted e) (carried ∙ ap some t) (sym (ap truthy t) ∙ full)
        (sym (ap (λ x. Table.find token_hash_of (hash_token env x) s.db.peers) t) ∙ fresh)

  abbrev Unknown : Bool → Database → Type 0
  Unknown b db = b ≡ false → authenticated_peer env later db ≡ none

  -- After a registration of a known peer that is not aborted, a call that carries a token with the
  -- hash that the peer had before is authenticated as nobody, if no two peers shared a hash before
  -- and the next token of the source has another hash.
  pub old_token_is_void :
      (old : PeerRow) (token : Text)
      → is_aborted (register_peer_rpc env context r s).0 ≡ false
      → Table.find peer_key r.peer_id s.db.peers ≡ some old
      → extract_bearer_token later ≡ some token
      → hash_token env token ≡ old.token_hash
      → IsUnique token_hash_of s.db.peers
      → hash_token env (env.token_urlsafe s.tokens_made) ≢ old.token_hash
      → authenticated_peer env later (register_peer_rpc env context r s).1.db ≡ none
  old_token_is_void old token passed found carried same unique other =
      register_peer_cases env context Unknown s r (λ b. cc)
        (λ time v. (
          λ has b.
              nobody env later (put_peer r.peer_id (rotate r.name next_hash) s.db) token carried (
                ap
                  (λ h.
                    Table.find token_hash_of h
                      (put_peer r.peer_id (rotate r.name next_hash) s.db).peers)
                  same
                ∙ find-rotated r.peer_id next_hash r.name old s.db.peers unique found
                    (ground (arith, text_beq_iff next_hash old.token_hash))),
          λ new b. ground arith,
        ))
        passed
