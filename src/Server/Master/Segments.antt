-- ===== src/Server/Master/Segments.antt =====
-- The shared memory at the start of the master: what it holds afterwards.
use ntut_network_and_system.Base.{
  ◌&&◌, ◌≡◌, refl, ◌∙◌, ap, ◌⊎◌, inl, inr, true, false, Bool-cases, some, List, [], ◌∷◌, ◌++◌,
}
use ntut_network_and_system.Base.Int.{pos, ltb_ℤ, eqb_ℤ, eqb_ℤ-refl}
use ntut_network_and_system.Float.{FloatOps}
use ntut_network_and_system.Account.{account_init}
use ntut_network_and_system.Ipc.{
  IpcEvent, shm_created, shm_attached, stale_removed, shm_detached, shm_removed, attached,
  IpcSystem, create_shm, ipc_init_server,
}
use ntut_network_and_system.Resources.{attachment, segment, taken, returned, replay, IsBalanced}
use ntut_network_and_system.Server.Master.{ipc_events}

-- Removing a stale segment takes and gives back nothing.
stale-events : (sys : IpcSystem) → ipc_events (create_shm sys).1 ≡ []
unfolding create_shm
stale-events sys = elim (Bool-cases (ltb_ℤ sys.new_shm (pos 0) && sys.exists)) [
  | inr fresh ↦ rw fresh refl
  | inl stale ↦ elim (Bool-cases (ltb_ℤ sys.old_shm (pos 0))) [
    | inl gone ↦ rw (stale, gone) refl
    | inr there ↦ rw (stale, there) refl
  ]
]

ipc_events-append : (xs ys : List IpcEvent) → ipc_events (xs ++ ys) ≡ ipc_events xs ++ ipc_events ys
ipc_events-append [] ys = refl
ipc_events-append (shm_created n ∷ xs) ys =
    ap (λ es. taken (segment n) ∷ es) (ipc_events-append xs ys)
ipc_events-append (shm_attached ∷ xs) ys =
    ap (λ es. taken attachment ∷ es) (ipc_events-append xs ys)
ipc_events-append (stale_removed n ∷ xs) ys = ipc_events-append xs ys
ipc_events-append (shm_detached ∷ xs) ys =
    ap (λ es. returned attachment ∷ es) (ipc_events-append xs ys)
ipc_events-append (shm_removed n ∷ xs) ys =
    ap (λ es. returned (segment n) ∷ es) (ipc_events-append xs ys)

append-ipc_events :
    (sys : IpcSystem) (ys : List IpcEvent) → ipc_events ((create_shm sys).1 ++ ys) ≡ ipc_events ys
append-ipc_events sys ys =
    ipc_events-append (create_shm sys).1 ys ∙ ap (λ es. es ++ ipc_events ys) (stale-events sys)

module _ {F : Type 0} (f : FloatOps F) where
  pub ipc_init_server-cases :
      (sys : IpcSystem)
      → (eqb_ℤ (ipc_init_server f sys).0.0 (pos 0) ≡ false)
          × IsBalanced (ipc_events (ipc_init_server f sys).0.1)
        ⊎ (eqb_ℤ (ipc_init_server f sys).0.0 (pos 0) ≡ true)
          × ((ipc_init_server f sys).1.db ≡ attached (account_init f))
          × (ltb_ℤ (ipc_init_server f sys).1.shm_id (pos 0) ≡ false)
          × (ipc_events (ipc_init_server f sys).0.1
              ≡ taken (segment (ipc_init_server f sys).1.shm_id) ∷ taken attachment ∷ [])
  unfolding ipc_init_server
  ipc_init_server-cases sys =
      let id = (create_shm sys).0 in
      elim (Bool-cases (ltb_ℤ id (pos 0))) [
        | inl bad ↦ rw bad (inl (refl, λ held. rw (stale-events sys) refl))
        | inr made ↦ elim (Bool-cases sys.attach_ok) [
          | inr failed ↦
              rw (made, failed)
                (inl (
                  refl,
                  λ held.
                      ap (λ es. replay es (some held))
                        (append-ipc_events sys (shm_created id ∷ shm_removed id ∷ []))
                      ∙ rw (eqb_ℤ-refl id) refl,
                ))
          | inl ok ↦
              rw (made, ok)
                (inr (refl, refl, made, append-ipc_events sys (shm_created id ∷ shm_attached ∷ [])))
        ]
      ]
