-- ===== src/Server/Takeover.antt =====
-- services/rttx-server/src/server.rs and protocol.rs: taking a write lease over, and the inventory that
-- announces where that works.
use rttx.Common.{
  ◌&&◌, sym, Bool-cases, inl, inr, ℕ, ◌≡◌, ◌≢◌, refl, ap, ◌∙◌, arith, Uuid, Bool, true, false,
  Option, none, some, List, [], ◌∷◌, is_some, contains, Result, ok, err,
}
use rttx.Common.Dict.{Dict, get, insert, get-insert, get-insert_same}
use rttx.Pane.{Engine}
use rttx.Workspace.{Workspace, persistent, writer, reader, take_over, bump_revision}
use rttx.Workspace.Lease.{
  attach_client, attach_mode, takeover_eligible_for, writer_client_id, seize,
  client_has_write_access, client_role,
}
use rttx.Workspace.Lease.Laws.{IsLease, find_writer-eq}
use rttx.Wire.Uuids.{uuid_to_bytes}
use rttx.Server.{Host, Server, World, ◌>>=◌}
use rttx.Server.Channels.{opt_workspace_takeover, opt_workspace_inventory}
use rttx.Server.Inventory.{v3_workspace_info_for}
use rttx.Server.Handlers.{broadcast}
use rttx.Server.Handlers.Lease.{handle_takeover_workspace, answer_takeover, seized}
use rttx.Server.Succeeds.{
  unless_holds, unless_fails, decode_known, workspace_known, asks_known, put_known,
}
use rttx.Server.Moves.Drawing.{broadcast-Untouched}

abbrev pub is_ok : {A B : Type 0} → Result A B → Bool
is_ok (ok a) = true
is_ok (err b) = false

module _ {h : Host} where
  answer_takeover-is_ok :
      (c id : Uuid) (o : Option (Uuid × ℕ)) (x : World) (s : Server h)
      → is_ok (answer_takeover c id o x s).1 ≡ is_some o
  unfolding answer_takeover broadcast ◌>>=◌
  answer_takeover-is_ok c id none x s = refl
  answer_takeover-is_ok c id (some (previous, revision)) x s = refl

  answer_takeover-workspaces :
      (c id : Uuid) (o : Option (Uuid × ℕ)) (x : World) (s : Server h)
      → (answer_takeover c id o x s).0.workspaces ≡ s.workspaces
  unfolding answer_takeover broadcast ◌>>=◌
  answer_takeover-workspaces c id none x s = refl
  answer_takeover-workspaces c id (some (previous, revision)) x s =
      (broadcast-Untouched x s (previous ∷ []) none _).workspaces

seized-eligible :
    {e : Engine} (w : Workspace e) (c : Uuid) (now : ℕ)
    → is_some (seized (writer_client_id w) (attach_client w c take_over now).1)
      ≡ takeover_eligible_for w c
unfolding attach_client attach_mode takeover_eligible_for writer_client_id
seized-eligible w c now = ground arith

module _ {h : Host} (x : World) (c id : Uuid) (caps : List ℕ) (w : Workspace h.engine)
    (s : Server h) where
  -- The whole handler, at a workspace that is there and with the capability negotiated.
  takeover_result :
      contains caps opt_workspace_takeover ≡ true
      → get s.workspaces id ≡ some w
      → handle_takeover_workspace c caps (uuid_to_bytes h.uuids id) x s
        ≡ answer_takeover c id
            (seized (writer_client_id w) (attach_client w c take_over x.now).1)
            x
            (record s { workspaces = insert s.workspaces id (attach_client w c take_over x.now).0 })
  unfolding handle_takeover_workspace
  takeover_result supported found =
      unless_holds x s (contains caps opt_workspace_takeover) _ _ supported
      ∙ decode_known x s _ id _
      ∙ workspace_known x s id _ _ w found
      ∙ asks_known x s (λ x. x.now) _
      ∙ put_known x s id _ _

  takeover_unsupported :
      contains caps opt_workspace_takeover ≡ false
      → is_ok (handle_takeover_workspace c caps (uuid_to_bytes h.uuids id) x s).1 ≡ false
  unfolding handle_takeover_workspace
  takeover_unsupported mute =
      ap (λ r. is_ok r.1) (unless_fails x s (contains caps opt_workspace_takeover) _ _ mute)

  -- The inventory entry of a workspace, for the capabilities that a client negotiated, announces a
  -- take-over exactly if the client negotiated the inventory and its `TakeoverWorkspace` would succeed.
  pub takeover_eligible-is_ok :
      get s.workspaces id ≡ some w
      → (v3_workspace_info_for h.uuids x.proc_cwd c w
          (contains caps opt_workspace_inventory)
          (contains caps opt_workspace_takeover)).takeover_eligible
        ≡ (contains caps opt_workspace_inventory
            && is_ok (handle_takeover_workspace c caps (uuid_to_bytes h.uuids id) x s).1)
  unfolding v3_workspace_info_for
  takeover_eligible-is_ok found =
      ap (λ b. contains caps opt_workspace_inventory && b)
        (elim (Bool-cases (contains caps opt_workspace_takeover)) [
          | inl able ↦
              ap (λ b. b && takeover_eligible_for w c) able
              ∙ sym (
                  ap (λ r. is_ok r.1) (takeover_result able found)
                  ∙ answer_takeover-is_ok c id _ x _
                  ∙ seized-eligible w c x.now)
          | inr mute ↦
              ap (λ b. b && takeover_eligible_for w c) mute ∙ sym (takeover_unsupported mute)
        ])

-- Who has which role in the workspace under `id` after a take-over.
pub record Seized {e : Engine} (d : Dict (Workspace e)) (id new_writer old_writer : Uuid)
    : Type 0 where
  pub workspace : Workspace e
  pub found : get d id ≡ some workspace
  pub gains : client_has_write_access workspace new_writer ≡ true
  pub loses : get workspace.attached_clients old_writer ≡ some reader

seized_roles :
    {e : Engine} (w : Workspace e) (c previous : Uuid) (now : ℕ)
    → w.policy ≡ persistent
    → IsLease w.attached_clients
    → get w.attached_clients previous ≡ some writer
    → c ≢ previous
    → (get (attach_client w c take_over now).0.attached_clients c ≡ some writer)
      × (get (attach_client w c take_over now).0.attached_clients previous ≡ some reader)
unfolding attach_client attach_mode takeover_eligible_for writer_client_id seize bump_revision
seized_roles w c previous now lasting lease holds other =
    let found = find_writer-eq w.attached_clients previous lease holds in
    let demoted = insert w.attached_clients previous reader in
    ground (
      arith,
      lasting,
      found,
      other,
      get-insert demoted c c writer,
      get-insert demoted c previous writer,
      get-insert w.attached_clients previous previous reader,
    )

writer_may_write :
    {e : Engine} (w : Workspace e) (c : Uuid)
    → get w.attached_clients c ≡ some writer
    → client_has_write_access w c ≡ true
unfolding client_has_write_access client_role
writer_may_write w c role = rw (client_has_write_access, client_role, role) refl

-- Whoever holds the write lease of a persistent workspace, one `TakeoverWorkspace` of any other client
-- with the capability succeeds: that client may write afterwards, and the previous writer may read.
pub handle_takeover_workspace-Seized :
    {h : Host} (x : World) (c id previous : Uuid) (caps : List ℕ) (w : Workspace h.engine)
    (s : Server h)
    → contains caps opt_workspace_takeover ≡ true
    → get s.workspaces id ≡ some w
    → w.policy ≡ persistent
    → IsLease w.attached_clients
    → get w.attached_clients previous ≡ some writer
    → c ≢ previous
    → Seized
        (handle_takeover_workspace c caps (uuid_to_bytes h.uuids id) x s).0.workspaces
        id
        c
        previous
handle_takeover_workspace-Seized {h} x c id previous caps w s supported found lasting lease holds
      other =
    let w' = (attach_client w c take_over x.now).0 in
    let roles = seized_roles w c previous x.now lasting lease holds other in
    record {
      workspace = w';
      found =
          ap (λ r. get r.0.workspaces id) (takeover_result x c id caps w s supported found)
          ∙ ap (λ d. get d id) (answer_takeover-workspaces c id _ x _)
          ∙ get-insert_same s.workspaces id w';
      gains = writer_may_write w' c roles.0;
      loses = roles.1;
    }
