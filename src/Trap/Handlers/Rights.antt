-- ===== src/Trap/Handlers/Rights.antt =====
-- Who may change the owner of a handler.
use nt_rustos.Common.{
  ℕ, ◌≡◌, ◌≢◌, ◌⊎◌, ◌↔◌, sym, inl, inr, refl, arith, Bool, true, false, not, ◌&&◌, some, none,
  Option-cases, Bool-cases, ◌==◌, if◌then◌else◌, ==→≡, ==→≢, ==_refl,
}
use nt_rustos.Trap.Handlers.{
  HandlerEntry, HeapHandlerManager, transfer_ownership, can_be_unregistered_by, ProtectionLevel,
  kernel, system, user, lookup,
}

module _ {Context : Type 0} where
  -- The manager with another owner for one entry.
  abbrev pub owned_by : ℕ → ℕ → HeapHandlerManager Context → HeapHandlerManager Context
  owned_by a owner m = record m {
    entries = λ x. if x == a then record (m.entries a) { registrar_id = owner } else m.entries x;
  }

  -- The ways in which a transfer can go.
  pub data Transfer (handle from to : ℕ) (m : HeapHandlerManager Context)
      : Bool → HeapHandlerManager Context → Type 0 where
    not_found : lookup handle m.handle_map ≡ none → Transfer handle from to m false m
    not_allowed :
        (a : ℕ)
        → lookup handle m.handle_map ≡ some a
        → (m.entries a).registrar_id ≢ from
        → from ≢ 0
        → Transfer handle from to m false m
    done :
        (a : ℕ)
        → lookup handle m.handle_map ≡ some a
        → ((m.entries a).registrar_id ≡ from) ⊎ (from ≡ 0)
        → Transfer handle from to m true (owned_by a to m)

  transfer_to :
      (handle from to a : ℕ) (m : HeapHandlerManager Context)
      → lookup handle m.handle_map ≡ some a
      → transfer_ownership handle from to m ≡ (
          if not ((m.entries a).registrar_id == from) && not (from == 0)
          then (false, m)
          else (true, owned_by a to m))
  unfolding transfer_ownership
  transfer_to handle from to a m s = rw (s, transfer_ownership) refl

  transfer_nothing :
      (handle from to : ℕ) (m : HeapHandlerManager Context)
      → lookup handle m.handle_map ≡ none
      → transfer_ownership handle from to m ≡ (false, m)
  unfolding transfer_ownership
  transfer_nothing handle from to m n = rw (n, transfer_ownership) refl

  -- `transfer_ownership` fails for a handle that is not registered and for a requester who is
  -- neither the owner nor the kernel, and then nothing changes; otherwise the owner of that entry
  -- changes, and nothing else does.
  pub transfer_ownership-Transfer :
      (handle from to : ℕ) (m : HeapHandlerManager Context)
      → Transfer handle from to m
          ((transfer_ownership handle from to m).0)
          ((transfer_ownership handle from to m).1)
  transfer_ownership-Transfer handle from to m = elim (Option-cases (lookup handle m.handle_map)) [
    | inl n ↦ rw (transfer_nothing handle from to m n) (not_found n)
    | inr (a, s) ↦
        let one = transfer_to handle from to a m s in
        elim (Bool-cases ((m.entries a).registrar_id == from)) [
          | inl o ↦ rw (one, o) (done a s (inl (==→≡ _ _ o)))
          | inr o ↦ elim (Bool-cases (from == 0)) [
            | inl k ↦ rw (one, o, k) (done a s (inr (==→≡ _ _ k)))
            | inr k ↦ rw (one, o, k) (not_allowed a s (==→≢ _ _ o) (==→≢ _ _ k))
          ]
        ]
  ]

-- The registrars to whom a handler's protection gives the right to remove it: the kernel always,
-- the system for its own level, and the owner of an unprotected handler.
abbrev pub MayRemove : {Context : Type 0} → HandlerEntry Context → ℕ → Type 0
MayRemove e id =
    (id ≡ 0)
    ⊎ (e.protection_level ≡ system) × (id ≡ 1)
    ⊎ (e.protection_level ≡ user) × (id ≡ e.registrar_id)

level-cases : (l : ProtectionLevel) → (l ≡ kernel) ⊎ (l ≡ system) ⊎ (l ≡ user)
level-cases kernel = inl refl
level-cases system = inr (inl refl)
level-cases user = inr (inr refl)

right_of :
    {Context : Type 0} (e : HandlerEntry Context) (id : ℕ)
    → can_be_unregistered_by e id ≡ true
    → MayRemove e id
unfolding can_be_unregistered_by
right_of e id h = elim (level-cases e.protection_level) [
  | inl k ↦ inl (==→≡ _ _ (rw k at h))
  | inr (inl k) ↦ elim (Bool-cases (id == 0)) [
    | inl z ↦ inl (==→≡ _ _ z)
    | inr z ↦ inr (inl (k, ==→≡ _ _ (rw (k, z) at h)))
  ]
  | inr (inr k) ↦ elim (Bool-cases (e.registrar_id == id)) [
    | inl z ↦ inr (inr (k, sym (==→≡ _ _ z)))
    | inr z ↦ inl (==→≡ _ _ (rw (k, z) at h))
  ]
]

granted :
    {Context : Type 0} (e : HandlerEntry Context) (id : ℕ)
    → MayRemove e id
    → can_be_unregistered_by e id ≡ true
unfolding can_be_unregistered_by
granted e id (inl z) = elim (level-cases e.protection_level) [
  | inl k ↦ rw (k, can_be_unregistered_by, z) refl
  | inr (inl k) ↦ rw (k, can_be_unregistered_by, z) refl
  | inr (inr k) ↦ rw (k, can_be_unregistered_by, z) (ground arith)
]
granted e id (inr (inl (k, z))) = rw (k, can_be_unregistered_by, z) refl
granted e id (inr (inr (k, z))) =
    let own = ==_refl e.registrar_id in rw (k, can_be_unregistered_by, z, own) refl

-- `can_be_unregistered_by` grants the kernel the removal of any handler, the system that of its
-- own, and the owner that of an unprotected one, and nobody else.
pub can_be_unregistered_by-MayRemove :
    {Context : Type 0} (e : HandlerEntry Context) (id : ℕ)
    → (can_be_unregistered_by e id ≡ true) ↔ MayRemove e id
can_be_unregistered_by-MayRemove e id = (right_of e id, granted e id)
