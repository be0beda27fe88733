-- ===== src/Workspace/Lease/Laws.antt =====
-- services/rttx-server/src/workspace.rs: at most one client holds the write lease, and what an
-- attach and a detach do to each client's role and to the revision.
use rttx.Common.{
  ℕ, ◌≡◌, refl, ap, ◌≢◌, inl, inr, arith, Uuid, ◌==◌, false, not, Option, none, some, [], ◌∷◌,
  Bool-cases, IsDistinct,
}
use rttx.Common.Dict.{
  Dict, get, insert, remove, keys, get-insert, get-remove, insert-IsDistinct, remove-IsDistinct,
  contains-keys,
}
use rttx.Pane.{Engine}
use rttx.Workspace.{
  Workspace, ClientRole, writer, reader, AttachMode, read_write, read_only, take_over, DetachReason,
}
use rttx.Workspace.Lease.{
  is_other, find_writer, takeover_eligible_for, seize, set_role, attach_mode, attach_client,
  detach_client,
}

-- No client stands twice in the map, and no two clients are writers.
pub record IsLease (d : Dict ClientRole) : Type 0 where
  pub distinct : IsDistinct (keys d)
  pub single : (a b : Uuid) → get d a ≡ some writer → get d b ≡ some writer → a ≡ b

pub find_writer_sound :
    (d : Dict ClientRole) (c : Uuid)
    → IsDistinct (keys d)
    → find_writer d ≡ some c
    → get d c ≡ some writer
unfolding find_writer get
find_writer_sound [] c h e = cc
find_writer_sound ((k, writer) ∷ d) c h e = ground arith
find_writer_sound ((k, reader) ∷ d) c h e =
    ground (arith, find_writer_sound d c h.1 e, contains-keys d c, contains-keys d k)

pub find_writer_complete :
    (d : Dict ClientRole) → find_writer d ≡ none → (c : Uuid) → get d c ≢ some writer
unfolding find_writer get
find_writer_complete [] h c = λ e. cc
find_writer_complete ((k, writer) ∷ d) h c = λ e. cc
find_writer_complete ((k, reader) ∷ d) h c = λ e. ground (arith, find_writer_complete d h c)

-- With one writer, the walk finds it wherever it stands.
pub find_writer-eq :
    (d : Dict ClientRole) (c : Uuid) → IsLease d → get d c ≡ some writer → find_writer d ≡ some c
find_writer-eq d c v h = found (find_writer d) refl
  where
    found : (o : Option Uuid) → find_writer d ≡ o → o ≡ some c
    found none e = absurd (find_writer_complete d e c h)
    found (some b) e = ap some (v.single b c (find_writer_sound d b v.distinct e) h)

insert_reader-IsLease : (d : Dict ClientRole) (c : Uuid) → IsLease d → IsLease (insert d c reader)
insert_reader-IsLease d c v = record {
  distinct = insert-IsDistinct d c reader v.distinct;
  single =
      λ a b h k. ground (arith, get-insert d c a reader, get-insert d c b reader, v.single a b);
}

insert_writer-IsLease :
    (d : Dict ClientRole) (c : Uuid)
    → IsLease d
    → ((b : Uuid) → get d b ≡ some writer → b ≡ c)
    → IsLease (insert d c writer)
insert_writer-IsLease d c v only = record {
  distinct = insert-IsDistinct d c writer v.distinct;
  single = λ a b h k.
      ground
        (arith, get-insert d c a writer, get-insert d c b writer, v.single a b, only a, only b);
}

-- With no writer but `c`, every writer is `c`.
only_writer :
    (d : Dict ClientRole) (c : Uuid)
    → IsLease d
    → is_other (find_writer d) c ≡ false
    → (b : Uuid) → get d b ≡ some writer
    → b ≡ c
only_writer d c v h b k =
    let e = find_writer-eq d b v k in let same : not (b == c) ≡ false = rw e at h in ground arith

after_demotion :
    (d : Dict ClientRole) (p : Uuid)
    → IsLease d
    → get d p ≡ some writer
    → (b : Uuid) → get (insert d p reader) b ≢ some writer
after_demotion d p v h b k = ground (arith, get-insert d p b reader, v.single b p)

seize-IsLease :
    (d : Dict ClientRole) (o : Option Uuid) (c : Uuid)
    → find_writer d ≡ o
    → IsLease d
    → IsLease (seize d o c)
unfolding seize
seize-IsLease d none c e v =
    insert_writer-IsLease d c v λ b k. absurd (find_writer_complete d e b k)
seize-IsLease d (some p) c e v =
    insert_writer-IsLease (insert d p reader) c (insert_reader-IsLease d p v)
      λ b k. absurd (after_demotion d p v (find_writer_sound d p v.distinct e) b k)

remove-IsLease : (d : Dict ClientRole) (c : Uuid) → IsLease d → IsLease (remove d c)
remove-IsLease d c v = record {
  distinct = remove-IsDistinct d c v.distinct;
  single = λ a b h k.
      ground (arith, get-remove d c a v.distinct, get-remove d c b v.distinct, v.single a b);
}

module _ {e : Engine} where
  pub set_role-clients :
      (w : Workspace e) (c : Uuid) (role : ClientRole)
      → (set_role w c role).attached_clients ≡ insert w.attached_clients c role
  unfolding set_role
  set_role-clients w c role = ground arith

  attach_mode-IsLease :
      (w : Workspace e) (c : Uuid) (mode : AttachMode)
      → IsLease w.attached_clients
      → IsLease (attach_mode w c mode).0.attached_clients
  unfolding attach_mode
  attach_mode-IsLease w c read_only v =
      rw (set_role-clients w c reader) (insert_reader-IsLease w.attached_clients c v)
  attach_mode-IsLease w c read_write v =
      elim (Bool-cases (is_other (find_writer w.attached_clients) c)) [
        | inl other ↦ rw other v
        | inr free ↦
            rw (free, set_role-clients w c writer)
              (insert_writer-IsLease w.attached_clients c v
                (only_writer w.attached_clients c v free))
      ]
  attach_mode-IsLease w c take_over v = elim (Bool-cases (takeover_eligible_for w c)) [
    | inr stays ↦ rw stays v
    | inl seizes ↦
        rw seizes (seize-IsLease w.attached_clients (find_writer w.attached_clients) c refl v)
  ]

  -- However a client attaches, at most one client holds the write lease afterwards.
  pub attach_client-IsLease :
      (w : Workspace e) (c : Uuid) (mode : AttachMode) (now : ℕ)
      → IsLease w.attached_clients
      → IsLease (attach_client w c mode now).0.attached_clients
  unfolding attach_client
  attach_client-IsLease w c mode now v =
      attach_mode-IsLease (record w { last_active_at = now }) c mode v

  pub detach_client-IsLease :
      (w : Workspace e) (c : Uuid) (reason : DetachReason)
      → IsLease w.attached_clients
      → IsLease (detach_client w c reason).0.attached_clients
  unfolding detach_client
  detach_client-IsLease w c reason v = ground (arith, remove-IsLease w.attached_clients c v)
