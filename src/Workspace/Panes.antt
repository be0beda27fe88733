-- ===== src/Workspace/Panes.antt =====
-- services/rttx-server/src/workspace.rs: the operations that add, split, remove and focus panes, on
-- the pane map and the pane tree together.
pub mod Adds
pub mod Coherent
use rttx.Common.{
  ℕ, Uuid, ◌==◌, Bool, true, false, not, ◌&&◌, Option, none, some, List, [], ◌∷◌, if◌then◌else◌,
  is_some, get_elem?,
}
use rttx.Common.Dict.{Dict, get, insert, remove}
use rttx.Common.Float.{F32}
use rttx.Pane.{Engine, Pane}
use rttx.PaneTree.{PaneId, SplitAxis, Side}
use rttx.WorkspaceTree.{WorkspaceTree, CloseOutcome, removed, emptied, not_found, is_active}
use rttx.WorkspaceTree
use rttx.Workspace.{Workspace, default_split_axis, default_split_ratio, bump_revision}

-- `active.filter(|t| tree.contains(*t)).or_else(|| tree.panes().first().copied())`
unfoldable pub split_target : WorkspaceTree → Option Uuid → Option PaneId
split_target tree none = get_elem? (WorkspaceTree.panes tree) 0
split_target tree (some active) =
    if WorkspaceTree.contains_pane tree active
    then some active
    else get_elem? (WorkspaceTree.panes tree) 0

unfoldable pub split_at : WorkspaceTree → Option PaneId → PaneId → WorkspaceTree
split_at tree none id = tree
split_at tree (some target) id =
    (WorkspaceTree.split_pane tree target id default_split_axis default_split_ratio).0

-- `insert_pane_into_tree`, on the two fields that it reads.
unfoldable pub insert_pane_into_tree : WorkspaceTree → Option Uuid → Uuid → WorkspaceTree
unfolding split_target split_at
insert_pane_into_tree tree active id =
    let (tree', seeded) = WorkspaceTree.insert_root tree id in
    if seeded then tree' else split_at tree (split_target tree active) id

-- The focus after a pane came in: the pane, if nothing had it.
abbrev pub focus_or : Option Uuid → Uuid → Option Uuid
focus_or none id = some id
focus_or (some active) id = some active

-- The focus that a close of the focused pane leaves.
abbrev pub focus_of : CloseOutcome → Option Uuid
focus_of (removed default_active) = some default_active
focus_of emptied = none
focus_of not_found = none

module _ {e : Engine} where
  unfoldable pub add_pane : Workspace e → Pane e → Workspace e
  unfolding insert_pane_into_tree bump_revision
  add_pane w pane = bump_revision (record w {
    panes = insert w.panes pane.id pane;
    tree = insert_pane_into_tree w.tree w.active_pane_id pane.id;
    active_pane_id = focus_or w.active_pane_id pane.id;
  })

  unfoldable pub split_pane : Workspace e → Uuid → Pane e → SplitAxis → F32 → Workspace e × Option ℕ
  unfolding bump_revision
  split_pane w target pane axis ratio =
      let (tree', done) = WorkspaceTree.split_pane w.tree target pane.id axis ratio in
      if not done
      then (w, none)
      else (let w' = bump_revision (record w {
        tree = tree';
        active_pane_id = focus_or w.active_pane_id pane.id;
        panes = insert w.panes pane.id pane;
      }) in
          (w', some w'.revision))

  unfoldable pub remove_pane : Workspace e → Uuid → Workspace e × Option (Pane e)
  unfolding bump_revision
  remove_pane w pane_id =
      if is_some (get w.panes pane_id)
      then (let (tree', outcome) = WorkspaceTree.close w.tree pane_id in
          (
            bump_revision (record w {
              panes = remove w.panes pane_id;
              tree = tree';
              active_pane_id =
                  if is_active w.active_pane_id pane_id then focus_of outcome else w.active_pane_id;
            }),
            get w.panes pane_id,
          ))
      else (w, none)

  unfoldable pub resize_split : Workspace e → List Side → F32 → Workspace e × Option ℕ
  unfolding bump_revision
  resize_split w path ratio =
      let (tree', done) = WorkspaceTree.resize_split w.tree path ratio in
      if done
      then (let w' = bump_revision (record w { tree = tree' }) in (w', some w'.revision))
      else (record w { tree = tree' }, none)

  unfoldable pub set_default_active_pane : Workspace e → Uuid → Workspace e × Option ℕ
  unfolding bump_revision
  set_default_active_pane w pane_id =
      let (tree', done) = WorkspaceTree.set_default_active w.tree pane_id in
      if done
      then (let w' = bump_revision (record w { tree = tree'; active_pane_id = some pane_id }) in
          (w', some w'.revision))
      else (record w { tree = tree' }, none)
