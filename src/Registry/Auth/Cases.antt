-- ===== src/Registry/Auth/Cases.antt =====
-- How the authentication helpers end: refused, with only the audit log written, or passed.
use peerdup.Prelude.{
  Text, truthy, ◌≡◌, ◌⊎◌, inl, inr, some, Option-cases, Bool-cases, ◌==◌, text_eq, text_beq_iff,
  pair_eq,
}
use peerdup.Prelude.Table
use peerdup.Registry.Models.{MemberRow, ShareRow, share_key, member_key}
use peerdup.Registry.Messages.{
  StatusCode, Details, aborted, unauthenticated, permission_denied, not_found,
  valid_bearer_token_required, not_a_member, share_not_found, only_the_owner,
}
use peerdup.Registry.Service.{Env, Context, AuditAction, Server, Result, done, fail, log}
use peerdup.Registry.Auth.{
  authenticated_peer, require_auth, require_share_member, require_share_owner,
}

-- An action ended by `abort`, and left the database as it was.
abbrev pub Refused : {A : Type 0} → Server → Result A × Server → Type 0
Refused s x =
    (status : StatusCode) × (details : Details) × (x.0 ≡ fail (aborted status details))
    × (x.1.db ≡ s.db)

module _ (env : Env) (context : Context) (s : Server) where
  pub require_auth_lem :
      Refused s (require_auth env context s)
      ⊎ ((p : Text) × (authenticated_peer env context s.db ≡ some p)
          × (require_auth env context s ≡ (done p, s)))
  unfolding require_auth log
  require_auth_lem = elim (Option-cases (authenticated_peer env context s.db)) [
    | inl e ↦ inl (unauthenticated, valid_bearer_token_required, rw e, rw e)
    | inr (p, e) ↦ elim (Bool-cases (truthy p)) [
      | inl t ↦ inr (p, e, rw (e, t))
      | inr f ↦ inl (unauthenticated, valid_bearer_token_required, rw (e, f), rw (e, f))
    ]
  ]

  pub require_share_member_lem :
      (share_id caller_id : Text) (action : AuditAction)
      → Refused s (require_share_member env context share_id caller_id action s)
        ⊎ ((m : MemberRow) × (Table.find member_key (share_id, caller_id) s.db.members ≡ some m)
            × (require_share_member env context share_id caller_id action s ≡ (done m, s)))
  unfolding require_share_member log
  require_share_member_lem share_id caller_id action =
      elim (Option-cases (Table.find member_key (share_id, caller_id) s.db.members)) [
        | inl e ↦ inl (permission_denied, not_a_member, rw e, rw e)
        | inr (m, e) ↦ inr (m, e, rw e)
      ]

  pub require_share_owner_lem :
      (share_id caller_id : Text) (action : AuditAction)
      → Refused s (require_share_owner env context share_id caller_id action s)
        ⊎ ((r : ShareRow) × (Table.find share_key share_id s.db.shares ≡ some r)
            × (r.owner_id ≡ caller_id)
            × (require_share_owner env context share_id caller_id action s ≡ (done r, s)))
  unfolding require_share_owner log
  require_share_owner_lem share_id caller_id action =
      elim (Option-cases (Table.find share_key share_id s.db.shares)) [
        | inl e ↦ inl (not_found, share_not_found, rw e, rw e)
        | inr (r, e) ↦ elim (Bool-cases (r.owner_id == caller_id)) [
          | inl t ↦ inr (r, e, (text_beq_iff _ _).0 t, rw (e, t))
          | inr f ↦ inl (permission_denied, only_the_owner, rw (e, f), rw (e, f))
        ]
      ]
