-- ===== src/Registry/Atomic.antt =====
-- A call that ends by `context.abort` has changed nothing in the database.
use peerdup.Prelude.{Bool, true, ◌≡◌, refl, ap}
use peerdup.Registry.Models.{Database}
use peerdup.Registry.Messages.{StatusCode, Details, aborted}
use peerdup.Registry.Service.{Env, Context, Server, fail}
use peerdup.Registry.Rules.{is_aborted}
use peerdup.Registry.Effects.{Effect, handle-End}
use peerdup.Registry.Dispatch.{
  Call, register_peer, create_share, get_share, add_peer_to_share, remove_peer_from_share,
  set_share_policy, announce, get_share_peers, watch_share_peers, sweep_tick, handle,
}

module _ (env : Env) (context : Context) (s : Server) where
  abbrev Unchanged : Bool → Database → Type 0
  Unchanged b db = b ≡ true → db ≡ s.db

  Effect-Unchanged : (call : Call) → Effect env context Unchanged s call
  Effect-Unchanged (register_peer r) = λ time _. (λ _ b. cc, λ _ b. cc)
  Effect-Unchanged (create_share r) = λ _ _ _ _ _ _ b. cc
  Effect-Unchanged (add_peer_to_share r) = λ _ _ _ _ _ _ _. (λ _ b. cc, λ _ b. cc)
  Effect-Unchanged (remove_peer_from_share r) = λ _ _ _ _ _ _ b. cc
  Effect-Unchanged (set_share_policy r) = λ _ _ _ _ _ b. cc
  Effect-Unchanged (announce r) = λ _ _ _ _ _ _ _. (λ _ _ b. cc, λ _ b. cc)
  Effect-Unchanged sweep_tick = λ b. cc
  Effect-Unchanged (get_share i) = λ _ b. cc
  Effect-Unchanged (get_share_peers r) = λ _ b. cc
  Effect-Unchanged (watch_share_peers r) = λ _ b. cc
  Effect-Unchanged _ = λ b. cc

  -- If a call ends by `context.abort`, with whatever status, the database is as it was.
  pub abort_unchanged :
      (call : Call) (status : StatusCode) (details : Details)
      → (handle env context call s).0 ≡ fail (aborted status details)
      → (handle env context call s).1.db ≡ s.db
  abort_unchanged call status details e =
      handle-End env context Unchanged s call (λ _. refl) (Effect-Unchanged call) (ap is_aborted e)
