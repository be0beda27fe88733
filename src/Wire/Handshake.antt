-- ===== src/Wire/Handshake.antt =====
-- protocols/rttx-proto/src/v3_handshake.rs: the version and the capabilities that two peers settle on.
-- An error is its fields without the text.
use rttx.Common.{
  ℕ, ◌≤◌, ◌≡◌, refl, arith, inl, inr, min, max, Bool, true, false, not, ◌&&◌, ◌||◌, List, [], ◌∷◌,
  leb, if◌then◌else◌, contains, Result, ok, err, Bool-cases, ==_iff,
}

-- `PROTOCOL_MISMATCH` and `UNSUPPORTED_CAPABILITY` are the kinds that the handshake reports.
pub data ErrorKind : Type 0 where
  protocol_mismatch unsupported_capability : ErrorKind

pub record ProtocolError : Type 0 where
  pub kind : ErrorKind
  pub retryable : Bool
  pub user_action_required : Bool
  pub retry_after_seconds : ℕ

-- `CORE_CAPABILITIES`, by their numbers on the wire.
abbrev pub core_capabilities : List ℕ
core_capabilities = 1 ∷ 2 ∷ 3 ∷ 4 ∷ 5 ∷ 6 ∷ []

unfoldable pub negotiate_version : ℕ → ℕ → ℕ → ℕ → Result ℕ ProtocolError
negotiate_version client_min client_max server_min server_max =
    let overlap_min = max client_min server_min in
    let overlap_max = min client_max server_max in
    if leb overlap_min overlap_max
    then ok overlap_max
    else err (record {
      kind = protocol_mismatch;
      retryable = false;
      user_action_required = true;
      retry_after_seconds = 0;
    })

-- `core.iter().filter(|c| !caps.contains(c))`
unfoldable pub missing_from : List ℕ → List ℕ → List ℕ
missing_from [] caps = []
missing_from (c ∷ core) caps =
    if not (contains caps c) then c ∷ missing_from core caps else missing_from core caps

unfoldable pub ok_if_empty : List ℕ → Result (Unit {0}) (List ℕ)
ok_if_empty [] = ok tt
ok_if_empty (c ∷ missing) = err (c ∷ missing)

unfoldable pub validate_server_capabilities : List ℕ → Result (Unit {0}) (List ℕ)
unfolding missing_from ok_if_empty
validate_server_capabilities server_caps = ok_if_empty (missing_from core_capabilities server_caps)

unfoldable pub effective_capabilities : List ℕ → List ℕ → List ℕ
effective_capabilities [] server_caps = []
effective_capabilities (c ∷ client_caps) server_caps =
    let rest = effective_capabilities client_caps server_caps in
    if contains server_caps c then c ∷ rest else rest

-- A version that a peer of the given range speaks.
abbrev pub Speaks : ℕ → ℕ → ℕ → Type 0
Speaks low high v = (low ≤ v) × (v ≤ high)

-- Where some version is spoken by both peers, the negotiation succeeds with a version that both speak
-- and that is at least as high.
pub negotiate_version-highest :
    (c_min c_max s_min s_max w : ℕ)
    → Speaks c_min c_max w
    → Speaks s_min s_max w
    → (v : ℕ) × (negotiate_version c_min c_max s_min s_max ≡ ok v)
      × Speaks c_min c_max v
      × Speaks s_min s_max v
      × (w ≤ v)
unfolding negotiate_version
negotiate_version-highest c_min c_max s_min s_max w h k = (
  min c_max s_max,
  ground (arith, h, k),
  ground (arith, h, k),
  ground (arith, h, k),
  ground (arith, h, k),
)

-- A negotiation gives only a version that both peers speak: without one it fails.
pub negotiate_version-common :
    (c_min c_max s_min s_max v : ℕ)
    → negotiate_version c_min c_max s_min s_max ≡ ok v
    → Speaks c_min c_max v × Speaks s_min s_max v
unfolding negotiate_version
negotiate_version-common c_min c_max s_min s_max v h =
    elim (Bool-cases (leb (max c_min s_min) (min c_max s_max))) [
      | inl e ↦ (ground (arith, e, h), ground (arith, e, h))
      | inr e ↦ ground (arith, e, h)
    ]

-- The effective capabilities are those that both peers announce.
pub contains-effective_capabilities :
    (client_caps server_caps : List ℕ) (c : ℕ)
    → contains (effective_capabilities client_caps server_caps) c
      ≡ (contains client_caps c && contains server_caps c)
unfolding effective_capabilities
contains-effective_capabilities [] server_caps c = refl
contains-effective_capabilities (d ∷ client_caps) server_caps c =
    ground (arith, contains-effective_capabilities client_caps server_caps c, ==_iff d c)

contains-missing_from :
    (core caps : List ℕ) (c : ℕ)
    → contains (missing_from core caps) c ≡ (contains core c && not (contains caps c))
unfolding missing_from
contains-missing_from [] caps c = refl
contains-missing_from (d ∷ core) caps c =
    ground (arith, contains-missing_from core caps c, ==_iff d c)

abbrev pub Validates : List ℕ → Result (Unit {0}) (List ℕ) → ℕ → Type 0
Validates caps (ok u) c = (not (contains core_capabilities c) || contains caps c) ≡ true
Validates caps (err missing) c =
    contains missing c ≡ (contains core_capabilities c && not (contains caps c))

-- A server that passes announces every core capability; one that fails is told exactly the core
-- capabilities that it does not announce.
pub validate_server_capabilities-Validates :
    (caps : List ℕ) (c : ℕ) → Validates caps (validate_server_capabilities caps) c
unfolding validate_server_capabilities ok_if_empty
validate_server_capabilities-Validates caps c =
    answer (missing_from core_capabilities caps) (contains-missing_from core_capabilities caps c)
  where
    answer :
        (missing : List ℕ)
        → contains missing c ≡ (contains core_capabilities c && not (contains caps c))
        → Validates caps (ok_if_empty missing) c
    answer [] h = ground (arith, h)
    answer (d ∷ missing) h = h
