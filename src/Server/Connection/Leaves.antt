-- ===== src/Server/Connection/Leaves.antt =====
-- services/rttx-server/src/server.rs: what is left of a client whose connection ended.
use rttx.Common.{
  ◌≡◌, refl, ap, sym, ◌∙◌, arith, inl, inr, Uuid, Bool, true, false, Option, none, some, [], ◌∷◌,
  ◌==◌, if◌then◌else◌, Option-cases, IsDistinct, some_injective,
}
use rttx.Common.Dict.{Dict, get, keys, get-remove}
use rttx.Pane.{Engine}
use rttx.Workspace.{Workspace, ClientRole, DetachReason, bump_revision}
use rttx.Workspace.Lease.{detach_client}
use rttx.Server.{Host, Server}
use rttx.Server.Invariant.{IsSound}
use rttx.Server.Connection.{detach_all, remove_client}

module _ {e : Engine} where
  abbrev pub detached_from : Uuid → Option (Workspace e) → Option (Workspace e)
  detached_from c none = none
  detached_from c (some w) = some (detach_client w c DetachReason.disconnect).0

  pub get-detach_all :
      (c id : Uuid) (d : Dict (Workspace e)) → get (detach_all c d) id ≡ detached_from c (get d id)
  unfolding detach_all get
  get-detach_all c id [] = refl
  get-detach_all c id ((j, w) ∷ d) = ground (arith, get-detach_all c id d)

  pub keys-detach_all : (c : Uuid) (d : Dict (Workspace e)) → keys (detach_all c d) ≡ keys d
  unfolding detach_all
  keys-detach_all c [] = refl
  keys-detach_all c ((j, w) ∷ d) = ap (λ ks. j ∷ ks) (keys-detach_all c d)

  -- A workspace after the cleanup, from the one before it.
  pub record Before (c id : Uuid) (d : Dict (Workspace e)) (w' : Workspace e) : Type 0 where
    pub workspace : Workspace e
    pub found : get d id ≡ some workspace
    pub left : (detach_client workspace c DetachReason.disconnect).0 ≡ w'

  missing_detached : (w' : Workspace e) → none ≡ some w' → ⊥
  missing_detached w' q = cc

  pub found-Before :
      (c id : Uuid) (d : Dict (Workspace e)) (w' : Workspace e)
      → get (detach_all c d) id ≡ some w'
      → Before c id d w'
  found-Before c id d w' found = elim (Option-cases (get d id)) [
    | inl missing ↦ absurd (
        missing_detached w'
          (sym (ap (detached_from c) missing) ∙ sym (get-detach_all c id d) ∙ found))
    | inr (w, there) ↦ record {
      workspace = w;
      found = there;
      left =
          some_injective (sym (ap (detached_from c) there) ∙ sym (get-detach_all c id d) ∙ found);
    }
  ]

  detach_client-roles :
      (w : Workspace e) (c b : Uuid)
      → IsDistinct (keys w.attached_clients)
      → get (detach_client w c DetachReason.disconnect).0.attached_clients b
        ≡ (if c == b then none else get w.attached_clients b)
  unfolding detach_client bump_revision
  detach_client-roles w c b n =
      ground
        (arith, get-remove w.attached_clients c b n, λ (q : c ≡ b). ap (get w.attached_clients) q)

  -- The role of a client in the workspace under an id, if there is one.
  abbrev pub role_in : Option (Workspace e) → Uuid → Option ClientRole
  role_in none b = none
  role_in (some w) b = get w.attached_clients b

abbrev no_role : Option ClientRole
no_role = none

-- What the daemon remembers of the client `c`, and which roles the clients have in its workspaces.
pub record Forgets {h : Host} (c : Uuid) (s s' : Server h) : Type 0 where
  pub push : get s'.client_senders c ≡ none
  pub resp : get s'.client_resp_senders c ≡ none
  pub protocol : get s'.client_protocols c ≡ none
  pub sizes : get s'.client_pane_sizes c ≡ none
  pub same_workspaces : keys s'.workspaces ≡ keys s.workspaces
  pub roles :
      (id b : Uuid)
      → role_in (get s'.workspaces id) b
        ≡ (if c == b then none else role_in (get s.workspaces id) b)

-- When a connection ends after its handshake, no channel, capability, size or role of the client is
-- left, every other client keeps its role everywhere, and every workspace stays, also an ephemeral
-- one that nobody is attached to any more.
pub remove_client-Forgets :
    {h : Host} (c : Uuid) (s : Server h)
    → IsSound s
    → IsDistinct (keys s.client_senders)
    → IsDistinct (keys s.client_resp_senders)
    → IsDistinct (keys s.client_protocols)
    → IsDistinct (keys s.client_pane_sizes)
    → Forgets c s (remove_client c true s)
unfolding remove_client
remove_client-Forgets c s v senders resps protocols sizes = record {
  push = ground (arith, get-remove s.client_senders c c senders);
  resp = ground (arith, get-remove s.client_resp_senders c c resps);
  protocol = ground (arith, get-remove s.client_protocols c c protocols);
  sizes = ground (arith, get-remove s.client_pane_sizes c c sizes);
  same_workspaces = keys-detach_all c s.workspaces;
  roles = λ id b.
      ap (λ o. role_in o b) (get-detach_all c id s.workspaces)
      ∙ elim (Option-cases (get s.workspaces id)) [
        | inl missing ↦ rw missing (nobody (c == b))
        | inr (w, there) ↦ rw there (detach_client-roles w c b (v.ledger id w there).lease.distinct)
      ];
}
  where
    nobody : (x : Bool) → no_role ≡ (if x then no_role else no_role)
    nobody true = refl
    nobody false = refl
