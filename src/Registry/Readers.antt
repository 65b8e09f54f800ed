-- ===== src/Registry/Readers.antt =====
-- Who may see a share: only its members read its peers.
use peerdup.Prelude.{Text, Bool, true, false, ◌≡◌, Option, none, some}
use mathlib.Core.Path.{subst}
use peerdup.Registry.Models.{Database}
use peerdup.Registry.Service.{Env, Context, Server}
use peerdup.Registry.Changes.{Reader}
use peerdup.Registry.Rules.{is_aborted}
use peerdup.Registry.Effects.{Effect, handle-End}
use peerdup.Registry.Dispatch.{
  Call, register_peer, create_share, get_share, add_peer_to_share, remove_peer_from_share,
  set_share_policy, announce, get_share_peers, watch_share_peers, sweep_tick, handle,
}

-- The share whose members a call shows.
abbrev pub shows : Call → Option Text
shows (get_share i) = some i
shows (get_share_peers r) = some r.share_id
shows (watch_share_peers r) = some r.share_id
shows _ = none

module _ (env : Env) (context : Context) (s : Server) where
  abbrev ForReaders : Option Text → Bool → Database → Type 0
  ForReaders none b db = Unit {0}
  ForReaders (some i) b db = b ≡ false → Reader env context s.db i

  Effect-ForReaders : (call : Call) → Effect env context (ForReaders (shows call)) s call
  Effect-ForReaders (register_peer r) = λ _ _. (λ _. tt, λ _. tt)
  Effect-ForReaders (create_share r) = λ _ _ _ _ _ _. tt
  Effect-ForReaders (add_peer_to_share r) = λ _ _ _ _ _ _ _. (λ _. tt, λ _. tt)
  Effect-ForReaders (remove_peer_from_share r) = λ _ _ _ _ _ _. tt
  Effect-ForReaders (set_share_policy r) = λ _ _ _ _ _. tt
  Effect-ForReaders (announce r) = λ _ _ _ _ _ _ _. (λ _ _. tt, λ _. tt)
  Effect-ForReaders sweep_tick = tt
  Effect-ForReaders (get_share i) = λ reader _. reader
  Effect-ForReaders (get_share_peers r) = λ reader _. reader
  Effect-ForReaders (watch_share_peers r) = λ reader _. reader
  Effect-ForReaders _ = tt

  refused_reader : (o : Option Text) (db : Database) → ForReaders o true db
  refused_reader none db = tt
  refused_reader (some i) db = λ b. cc

  -- A call that shows the peers of a share (GetShare, GetSharePeers, WatchSharePeers), and is not
  -- aborted, was authenticated as a member of the share.
  pub shows_members_only :
      (call : Call) (i : Text)
      → shows call ≡ some i
      → is_aborted (handle env context call s).0 ≡ false
      → Reader env context s.db i
  shows_members_only call i e =
      subst
        (λ o.
          ForReaders o (is_aborted (handle env context call s).0) (handle env context call s).1.db)
        e
        (handle-End env context (ForReaders (shows call)) s call (refused_reader (shows call) s.db)
          (Effect-ForReaders call))
