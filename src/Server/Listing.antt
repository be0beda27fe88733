-- ===== src/Server/Listing.antt =====
-- services/rttx-server/src/server.rs: `ListWorkspaces` answers every workspace once, in order.
use rttx.Common.{
  ℕ, ◌+◌, ◌≡◌, refl, ap, ◌∙◌, arith, inl, inr, Uuid, Option, Bool, true, false, List, [], ◌∷◌,
  if◌then◌else◌, Bool-cases, contains, Result, ok,
}
use rttx.Common.Dict.{Dict}
use rttx.Common.Text.{Text}
use rttx.Pane.{Engine}
use rttx.Workspace.{Workspace}
use rttx.Workspace.Lease.{has_write_owner}
use rttx.Wire.Uuids.{UuidLib, uuid_to_bytes}
use rttx.Wire.Messages.{Bytes, WorkspaceInfo, Payload, workspace_list}
use rttx.Server.{Host, Server, World, ◌>>=◌}
use rttx.Server.Channels.{opt_workspace_inventory, opt_workspace_takeover}
use rttx.Server.Inventory.{bytes_le, insert_sorted, sort_by, workspace_infos, v3_workspace_info_for}
use rttx.Server.Handlers.Lifecycle.{handle_list_workspaces}

bytes_le-total : (a b : Bytes) → bytes_le a b ≡ false → bytes_le b a ≡ true
unfolding bytes_le
bytes_le-total [] b h = cc
bytes_le-total (x ∷ a) [] h = refl
bytes_le-total (x ∷ a) (y ∷ b) h = ground (arith, h, bytes_le-total a b)

-- How often a test holds.
abbrev pub count : {A : Type 0} → (A → Bool) → List A → ℕ
count test [] = 0
count test (x ∷ xs) = (if test x then 1 else 0) + count test xs

module _ {A : Type 0} (key : A → Bytes) where
  -- The first, if there is one, does not stand behind `x`.
  abbrev pub StartsAbove : A → List A → Type 0
  StartsAbove x [] = Unit {0}
  StartsAbove x (y ∷ ys) = bytes_le (key x) (key y) ≡ true

  abbrev pub IsSorted : List A → Type 0
  IsSorted [] = Unit {0}
  IsSorted (x ∷ xs) = StartsAbove x xs × IsSorted xs

  insert_sorted-StartsAbove :
      (x y : A) (ys : List A)
      → bytes_le (key y) (key x) ≡ true
      → StartsAbove y ys
      → StartsAbove y (insert_sorted key x ys)
  unfolding insert_sorted
  insert_sorted-StartsAbove x y [] h k = h
  insert_sorted-StartsAbove x y (z ∷ ys) h k = ground (arith, h, k)

  insert_sorted-IsSorted : (x : A) (ys : List A) → IsSorted ys → IsSorted (insert_sorted key x ys)
  unfolding insert_sorted
  insert_sorted-IsSorted x [] s = (tt, tt)
  insert_sorted-IsSorted x (y ∷ ys) s = elim (Bool-cases (bytes_le (key x) (key y))) [
    | inl first ↦ rw first (first, s)
    | inr later ↦ rw later (
      insert_sorted-StartsAbove x y ys (bytes_le-total (key x) (key y) later) s.0,
      insert_sorted-IsSorted x ys s.1,
    )
  ]

  sort_by-IsSorted : (xs : List A) → IsSorted (sort_by key xs)
  unfolding sort_by
  sort_by-IsSorted [] = tt
  sort_by-IsSorted (x ∷ xs) = insert_sorted-IsSorted x (sort_by key xs) (sort_by-IsSorted xs)

  count-insert_sorted :
      (test : A → Bool) (x : A) (ys : List A)
      → count test (insert_sorted key x ys) ≡ count test (x ∷ ys)
  unfolding insert_sorted
  count-insert_sorted test x [] = refl
  count-insert_sorted test x (y ∷ ys) = ground (arith, count-insert_sorted test x ys)

  count-sort_by : (test : A → Bool) (xs : List A) → count test (sort_by key xs) ≡ count test xs
  unfolding sort_by
  count-sort_by test [] = refl
  count-sort_by test (x ∷ xs) =
      count-insert_sorted test x (sort_by key xs)
      ∙ ap (λ n. (if test x then 1 else 0) + n) (count-sort_by test xs)

-- The workspaces that an answer lists.
abbrev pub listed : {E : Type 0} → Result Payload E → List WorkspaceInfo
listed (ok (workspace_list infos)) = infos
listed _ = []

-- What a test of four fields says of an entry, and of a workspace.
abbrev pub Test : Type 0
Test = Bytes → Text → ℕ → Bool → Bool

abbrev pub on_info : Test → WorkspaceInfo → Bool
on_info test i = test i.id i.name i.workspace_revision i.has_write_owner

abbrev pub on_workspace : {e : Engine} → UuidLib → Test → Uuid × Workspace e → Bool
on_workspace lib test (id, w) = test (uuid_to_bytes lib w.id) w.name w.revision (has_write_owner w)

count-workspace_infos :
    {e : Engine} (lib : UuidLib) (proc : ℕ → Option Text) (c : Uuid) (d : Dict (Workspace e))
    (enriched takeover : Bool) (test : Test)
    → count (on_info test) (workspace_infos lib proc c d enriched takeover)
      ≡ count (on_workspace lib test) d
unfolding workspace_infos v3_workspace_info_for
count-workspace_infos lib proc c [] enriched takeover test = refl
count-workspace_infos lib proc c ((id, w) ∷ d) enriched takeover test =
    ap (λ n. (if on_workspace lib test (id, w) then 1 else 0) + n)
      (count-workspace_infos lib proc c d enriched takeover test)

-- A `ListWorkspaces` is answered with an entry for each of the daemon's workspaces, in the order of
-- the ids: for any test of id, name, revision and whether there is a writer, as many entries as
-- workspaces pass it.
pub handle_list_workspaces-IsSorted :
    {h : Host} (x : World) (c : Uuid) (caps : List ℕ) (s : Server h) (test : Test)
    → IsSorted (λ i. i.id) (listed (handle_list_workspaces c caps x s).1)
      × (count (on_info test) (listed (handle_list_workspaces c caps x s).1)
          ≡ count (on_workspace h.uuids test) s.workspaces)
unfolding handle_list_workspaces ◌>>=◌
handle_list_workspaces-IsSorted {h} x c caps s test =
    let enriched = contains caps opt_workspace_inventory in
    let takeover = contains caps opt_workspace_takeover in
    (
      sort_by-IsSorted (λ i. i.id)
          (workspace_infos h.uuids x.proc_cwd c s.workspaces enriched takeover),
      count-sort_by (λ i. i.id) (on_info test)
            (workspace_infos h.uuids x.proc_cwd c s.workspaces enriched takeover)
          ∙ count-workspace_infos h.uuids x.proc_cwd c s.workspaces enriched takeover test,
    )
