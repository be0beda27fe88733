-- ===== src/Workspace/Fields/Laws.antt =====
-- services/rttx-server/src/workspace.rs: an operation on one pane's field touches that pane alone,
-- and bumps the revision exactly where it changes the pane.
use rttx.Common.{
  ℕ, ◌≡◌, refl, sym, ap, ◌≢◌, inl, inr, arith, Uuid, ◌==◌, Bool, true, false, not, ◌||◌, Option,
  none, some, if◌then◌else◌, Option-cases, Bool-cases, ◌⊎◌,
}
use rttx.Common.Dict.{get, insert, get-insert, insert_same}
use rttx.Common.Text.{Text, is_text, text_eq_iff, text_eq_refl}
use rttx.Pane.{Engine, Pane}
use rttx.Workspace.{Workspace, saturating_suc}
use rttx.Workspace.Fields.{
  write_pane, resize_pane, set_pane_title, set_pane_no_persist, set_pane_exit_status,
}

is_text-eq : (o : Option Text) (s : Text) → is_text o s ≡ true → o ≡ some s
is_text-eq none s h = cc
is_text-eq (some t) s h = ap some ((text_eq_iff t s).0 h)

module _ {e : Engine} where
  -- What an operation that makes the pane found at `id` into `f` of it answers and does there.
  abbrev pub EditsFound :
      Workspace e → Uuid → (Pane e → Pane e) → Option (Pane e) → Workspace e × Option ℕ → Type 0
  EditsFound w id f none r = r ≡ (w, none)
  EditsFound w id f (some p) r =
      (get r.0.panes id ≡ some (f p))
      × (r.1 ≡ some r.0.revision)
      × (((f p ≡ p) × (r.0 ≡ w)) ⊎ ((f p ≢ p) × (r.0.revision ≡ saturating_suc w.revision)))

  pub record Edits (w : Workspace e) (id : Uuid) (f : Pane e → Pane e) (r : Workspace e × Option ℕ)
      : Type 0 where
    pub found : EditsFound w id f (get w.panes id) r
    pub others :
        (j : Uuid) → get r.0.panes j ≡ (if id == j then get r.0.panes id else get w.panes j)
    pub tree_kept : r.0.tree ≡ w.tree
    pub clients_kept : r.0.attached_clients ≡ w.attached_clients

  write_pane-EditsFound :
      (w : Workspace e) (id : Uuid) (f : Pane e → Pane e) (p : Pane e) (changed : Bool)
      → get w.panes id ≡ some p
      → (changed ≡ false → f p ≡ p)
      → (changed ≡ true → f p ≢ p)
      → EditsFound w id f (some p) (write_pane w id (f p) changed)
  unfolding write_pane
  write_pane-EditsFound w id f p true h same differs =
      (ground (arith, get-insert w.panes id id (f p)), refl, inr (differs refl, refl))
  write_pane-EditsFound w id f p false h same differs = (
    ground (arith, get-insert w.panes id id (f p)),
    refl,
    inl (same refl, ground (arith, insert_same w.panes id p h, ap (insert w.panes id) (same refl))),
  )

  write_pane-Edits :
      (w : Workspace e) (id : Uuid) (f : Pane e → Pane e) (p : Pane e) (changed : Bool)
      → get w.panes id ≡ some p
      → (changed ≡ false → f p ≡ p)
      → (changed ≡ true → f p ≢ p)
      → Edits w id f (write_pane w id (f p) changed)
  unfolding write_pane
  write_pane-Edits w id f p changed h same differs = record {
    found = rw h (write_pane-EditsFound w id f p changed h same differs);
    others = λ j. ground (arith, get-insert w.panes id j (f p), get-insert w.panes id id (f p));
    tree_kept = ground arith;
    clients_kept = ground arith;
  }

  same_at :
      (w : Workspace e) (id j : Uuid)
      → get w.panes j ≡ (if id == j then get w.panes id else get w.panes j)
  same_at w id j = elim (Bool-cases (id == j)) [
    | inl h ↦ rw h (ap (get w.panes) (ground (arith, h)))
    | inr h ↦ rw h
  ]

  unknown-Edits :
      (w : Workspace e) (id : Uuid) (f : Pane e → Pane e)
      → get w.panes id ≡ none
      → Edits w id f (w, none)
  unknown-Edits w id f h = record {
    found = rw h refl;
    others = λ j. same_at w id j;
    tree_kept = refl;
    clients_kept = refl;
  }

  -- Resizing a pane stores the size in that pane, resizes its screen if the size differs, and bumps
  -- the revision exactly then. An unknown pane changes nothing.
  pub resize_pane-Edits :
      (w : Workspace e) (id : Uuid) (cols rows : ℕ)
      → Edits w id
          (λ p. record p {
            cols = cols;
            rows = rows;
            screen =
                if not (p.cols == cols) || not (p.rows == rows)
                then e.resize p.screen cols rows
                else p.screen;
          })
          (resize_pane w id cols rows)
  unfolding resize_pane
  resize_pane-Edits w id cols rows = elim (Option-cases (get w.panes id)) [
    | inl h ↦ rw (h, resize_pane) (unknown-Edits w id _ h)
    | inr (p, h) ↦
        rw (h, resize_pane)
          (write_pane-Edits w id _ p _ h (λ k. ground arith)
            (λ k q. ground (arith, ap (λ x. x.cols) q, ap (λ x. x.rows) q)))
  ]

  -- Setting a pane's title stores it in that pane and bumps the revision if it differs.
  pub set_pane_title-Edits :
      (w : Workspace e) (id : Uuid) (title : Text)
      → Edits w id (λ p. record p { title = some title }) (set_pane_title w id title)
  unfolding set_pane_title
  set_pane_title-Edits w id title = elim (Option-cases (get w.panes id)) [
    | inl h ↦ rw (h, set_pane_title) (unknown-Edits w id _ h)
    | inr (p, h) ↦
        rw (h, set_pane_title)
          (write_pane-Edits w id _ p _ h
            (λ k.
              let same = is_text-eq p.title title (ground arith) in
              λ i. record p { title = sym same i })
            (λ k q. ground (arith, ap (λ x. x.title) q, text_eq_refl title)))
  ]

  -- Setting a pane's `no_persist` flag stores it and bumps the revision if it differs.
  pub set_pane_no_persist-Edits :
      (w : Workspace e) (id : Uuid) (no_persist : Bool)
      → Edits w id (λ p. record p { no_persist = no_persist }) (set_pane_no_persist w id no_persist)
  unfolding set_pane_no_persist
  set_pane_no_persist-Edits w id no_persist = elim (Option-cases (get w.panes id)) [
    | inl h ↦ rw (h, set_pane_no_persist) (unknown-Edits w id _ h)
    | inr (p, h) ↦
        rw (h, set_pane_no_persist)
          (write_pane-Edits w id _ p _ h (λ k. ground arith)
            (λ k q. ground (arith, ap (λ x. x.no_persist) q)))
  ]

  -- Setting a pane's exit status stores it and bumps the revision if it differs.
  pub set_pane_exit_status-Edits :
      (w : Workspace e) (id : Uuid) (status : Option ℕ)
      → Edits w id (λ p. record p { exit_status = status }) (set_pane_exit_status w id status)
  unfolding set_pane_exit_status
  set_pane_exit_status-Edits w id status = elim (Option-cases (get w.panes id)) [
    | inl h ↦ rw (h, set_pane_exit_status) (unknown-Edits w id _ h)
    | inr (p, h) ↦
        rw (h, set_pane_exit_status)
          (write_pane-Edits w id _ p _ h (λ k. ground arith)
            (λ k q. ground (arith, ap (λ x. x.exit_status) q)))
  ]
