-- ===== src/Workspace/File/RoundTrip.antt =====
-- services/rttx-server/src/workspace.rs: what a saved workspace is when the daemon reads it back.
use rttx.Common.{
  ℕ, ◌≡◌, refl, sym, ap, ◌∙◌, inl, inr, arith, Uuid, true, false, Option, none, some, List, [], ◌∷◌,
  ◌++◌, append_assoc, append-nil, Bool-cases, contains, contains-append, IsDistinct,
}
use rttx.Common.Dict.{Dict, insert, keys}
use rttx.Common.Text.{Text}
use rttx.Pane.{Engine, Pane, effective_cwd, read_proc_cwd}
use rttx.Pane
use rttx.Workspace.{Workspace, is_dirty}
use rttx.Workspace.Naming.{derived_name, adopt_name, refresh_auto_name}
use rttx.Workspace.Panes.Coherent.{IsKeyed, IsCoherent}
use rttx.Workspace.File.{
  WorkspaceFileV2, pane_spec, pane_specs, to_workspace_file, collect_panes, rebuild,
  from_workspace_file,
}

insert_fresh {ℓ} :
    {V : Type ℓ} (d : Dict V) (k : Uuid) (v : V)
    → contains (keys d) k ≡ false
    → insert d k v ≡ d ++ (k, v) ∷ []
unfolding insert
insert_fresh [] k v h = refl
insert_fresh ((j, w) ∷ d) k v h = ground (arith, insert_fresh d k v)

keys-append {ℓ} : {V : Type ℓ} (c d : Dict V) → keys (c ++ d) ≡ keys c ++ keys d
keys-append [] d = refl
keys-append ((k, v) ∷ c) d = ap (◌∷◌ k) (keys-append c d)

middle_fresh : (xs ys : List Uuid) (k : Uuid) → IsDistinct (xs ++ k ∷ ys) → contains xs k ≡ false
middle_fresh [] ys k d = refl
middle_fresh (x ∷ xs) ys k d = ground (arith, middle_fresh xs ys k, contains-append xs (k ∷ ys) x)

rebuild-clean : (e : Engine) (rf : WorkspaceFileV2) → is_dirty (rebuild e rf) ≡ false
unfolding is_dirty rebuild
rebuild-clean e rf = ground arith

module _ {e : Engine} where
  -- A pane as a restart leaves it: its metadata with a fresh screen and no process.
  abbrev pub restarted : (ℕ → Option Text) → Pane e → Pane e
  restarted proc p = record (Pane.new e p.id p.cols p.rows) {
    cwd = effective_cwd proc p;
    title = p.title;
    exit_status = p.exit_status;
    reconstructed = true;
    no_persist = p.no_persist;
  }

  abbrev pub restarted_panes : (ℕ → Option Text) → Dict (Pane e) → Dict (Pane e)
  restarted_panes proc [] = []
  restarted_panes proc ((id, p) ∷ d) = (id, restarted proc p) ∷ restarted_panes proc d

  keys-restarted_panes :
      (proc : ℕ → Option Text) (d : Dict (Pane e)) → keys (restarted_panes proc d) ≡ keys d
  keys-restarted_panes proc [] = refl
  keys-restarted_panes proc ((id, p) ∷ d) = ap (◌∷◌ id) (keys-restarted_panes proc d)

  restarted_panes-IsKeyed :
      (proc : ℕ → Option Text) (d : Dict (Pane e)) → IsKeyed d → IsKeyed (restarted_panes proc d)
  unfolding Pane.new
  restarted_panes-IsKeyed proc [] k = tt
  restarted_panes-IsKeyed proc ((id, p) ∷ d) k = (k.0, restarted_panes-IsKeyed proc d k.1)

  collect_panes-pane_specs :
      (proc : ℕ → Option Text) (d acc : Dict (Pane e))
      → IsKeyed d
      → IsDistinct (keys acc ++ keys d)
      → collect_panes e (pane_specs proc d) acc ≡ acc ++ restarted_panes proc d
  unfolding collect_panes pane_specs pane_spec
  collect_panes-pane_specs proc [] acc k h = sym (append-nil acc)
  collect_panes-pane_specs proc ((id, p) ∷ d) acc k h =
      let one : Dict (Pane e) = (id, restarted proc p) ∷ [] in
      let step =
        ap (λ i. insert acc i (restarted proc p)) k.0
        ∙ insert_fresh acc id (restarted proc p) (middle_fresh (keys acc) (keys d) id h) in
      let distinct : IsDistinct (keys (acc ++ one) ++ keys d) =
        rw (keys-append acc one, append_assoc (keys acc) (id ∷ []) (keys d)) h in
      ap (collect_panes e (pane_specs proc d)) step
      ∙ collect_panes-pane_specs proc d (acc ++ one) k.1 distinct
      ∙ append_assoc acc one (restarted_panes proc d)

  adopt_name-keeps :
      (w : Workspace e) (o : Option Text)
      → let w' = (adopt_name w o).0 in
        (w'.panes ≡ w.panes)
        × (w'.tree ≡ w.tree)
        × (w'.active_pane_id ≡ w.active_pane_id)
        × (w'.attached_clients ≡ w.attached_clients)
        × (w'.persisted_revision ≡ w.persisted_revision)
  unfolding adopt_name
  adopt_name-keeps w none = (refl, refl, refl, refl, refl)
  adopt_name-keeps w (some name) = ground arith

  refresh_auto_name-keeps :
      (proc : ℕ → Option Text) (w : Workspace e)
      → let w' = (refresh_auto_name proc w).0 in
        (w'.panes ≡ w.panes)
        × (w'.tree ≡ w.tree)
        × (w'.active_pane_id ≡ w.active_pane_id)
        × (w'.attached_clients ≡ w.attached_clients)
        × (w'.persisted_revision ≡ w.persisted_revision)
  unfolding refresh_auto_name
  refresh_auto_name-keeps proc w = elim (Bool-cases w.user_renamed) [
    | inl user ↦ ground arith
    | inr auto ↦ ground (arith, adopt_name-keeps w (derived_name proc w))
  ]

  refresh_auto_name_user :
      (proc : ℕ → Option Text) (w : Workspace e)
      → w.user_renamed ≡ true
      → (refresh_auto_name proc w).0 ≡ w
  unfolding refresh_auto_name
  refresh_auto_name_user proc w h = ground arith

  -- A coherent workspace that is saved and read back is coherent, with the same pane tree, its panes
  -- restarted under the same ids with their metadata, the focus on the default-active pane, and no
  -- client attached.
  pub from_workspace_file-to_workspace_file :
      (proc proc' : ℕ → Option Text) (now : ℕ) (w : Workspace e)
      → IsCoherent w
      → let w' = from_workspace_file e proc' (to_workspace_file proc now w) in
        IsCoherent w'
        × (w'.tree ≡ w.tree)
        × (w'.panes ≡ restarted_panes proc w.panes)
        × (w'.attached_clients ≡ [])
  unfolding from_workspace_file to_workspace_file
  from_workspace_file-to_workspace_file proc proc' now w c =
      let b = rebuild e (to_workspace_file proc now w) in
      let h = refresh_auto_name-keeps proc' b in
      let q = collect_panes-pane_specs proc w.panes [] c.keyed c.distinct in
      let same : (refresh_auto_name proc' b).0.panes ≡ restarted_panes proc w.panes = h.0 ∙ q in
      (
        record {
          valid = rw h.1 c.valid;
          distinct = rw (same, keys-restarted_panes proc w.panes) c.distinct;
          same_panes = λ i. rw (same, h.1, keys-restarted_panes proc w.panes) (c.same_panes i);
          same_focus = rw (h.2, h.1);
          keyed = rw same (restarted_panes-IsKeyed proc w.panes c.keyed);
        },
        h.1,
        same,
        h.3,
      )

  -- A name that a user gave comes back from the file, and then nothing is left to save.
  pub from_workspace_file-user_renamed :
      (proc proc' : ℕ → Option Text) (now : ℕ) (w : Workspace e)
      → w.user_renamed ≡ true
      → let w' = from_workspace_file e proc' (to_workspace_file proc now w) in
        (w'.name ≡ w.name) × (w'.user_renamed ≡ true) × (is_dirty w' ≡ false)
  unfolding from_workspace_file to_workspace_file
  from_workspace_file-user_renamed proc proc' now w u =
      rw (refresh_auto_name_user proc' (rebuild e (to_workspace_file proc now w)) u)
        (refl, u, rebuild-clean e (to_workspace_file proc now w))
