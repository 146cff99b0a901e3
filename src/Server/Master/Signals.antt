-- ===== src/Server/Master/Signals.antt =====
-- The signals that the master gets, and what it does to its workers.
use ntut_network_and_system.Base.{
  ℕ, ◌≡◌, refl, ◌∙◌, ap, inl, inr, Bool, true, false, ◌||◌, ◌&&◌, Bool-cases, Option, none, some,
  List, [], ◌∷◌, ◌++◌, if◌then◌else◌, ◌==◌,
}
use ntut_network_and_system.Base.Int.{ℤ, pos, ltb_ℤ, eqb_ℤ-refl}
use ntut_network_and_system.Resources.{
  Resource, descriptor, Event, replay, IsBalanced, replay-append,
}
use ntut_network_and_system.Server.Master.{
  Master, signal_workers, wait_workers, signal_handler, wait_signals,
}

-- The listening socket, where it is open.
abbrev pub listening : {F : Type 0} → Master F → List Resource
listening m = if ltb_ℤ m.server_fd (pos 0) then [] else descriptor m.server_fd ∷ []

pub signal_workers-IsBalanced : (pids : List ℤ) → IsBalanced (signal_workers pids)
unfolding signal_workers
signal_workers-IsBalanced [] = λ held. refl
signal_workers-IsBalanced (pid ∷ pids) = elim (Bool-cases (ltb_ℤ (pos 0) pid)) [
  | inl there ↦ λ held. rw there (signal_workers-IsBalanced pids held)
  | inr missing ↦ λ held. rw missing (signal_workers-IsBalanced pids held)
]

pub wait_workers-IsBalanced : (pids : List ℤ) → IsBalanced (wait_workers pids)
unfolding wait_workers
wait_workers-IsBalanced [] = λ held. refl
wait_workers-IsBalanced (pid ∷ pids) = elim (Bool-cases (ltb_ℤ (pos 0) pid)) [
  | inl there ↦ λ held. rw there (wait_workers-IsBalanced pids held)
  | inr missing ↦ λ held. rw missing (wait_workers-IsBalanced pids held)
]

module _ {F : Type 0} where
  -- What a signal does to what is held, and what it leaves as it was.
  abbrev pub Keeps : Master F → List Event → Master F → Type 0
  Keeps m events m' =
      ((held : List Resource)
        → replay events (some (listening m ++ held)) ≡ some (listening m' ++ held))
      × (m'.ssl_context ≡ m.ssl_context)
      × (m'.ipc_ctx ≡ m.ipc_ctx)
      × (m'.worker_pids ≡ m.worker_pids)

  signal_handler-Keeps :
      (signum : ℕ) (m : Master F) → Keeps m (signal_handler signum m).0 (signal_handler signum m).1
  unfolding signal_handler
  signal_handler-Keeps signum m =
      elim (Bool-cases ((signum == 2 || signum == 15) && m.keep_running)) [
        | inr other ↦ rw other ((λ held. refl), refl, refl, refl)
        | inl stop ↦ elim (Bool-cases (ltb_ℤ m.server_fd (pos 0))) [
          | inl shut ↦ rw (stop, shut) ((λ held. rw shut refl), refl, refl, refl)
          | inr still ↦
              rw (stop, still) ((λ held. rw (eqb_ℤ-refl m.server_fd) refl), refl, refl, refl)
        ]
      ]

  -- The loop ends with the master no longer running, or waits with nothing changed.
  abbrev pub Waits : Master F → Option (List Event × Master F) → Type 0
  Waits m none = Unit
  Waits m (some (events, m')) = Keeps m events m'

  handled :
      (m : Master F) (events : List Event) (m' : Master F) (later : Option (List Event × Master F))
      → Keeps m events m'
      → Waits m' later
      → Waits m (elim later [ none ↦ none | some (events', m'') ↦ some (events ++ events', m'') ])
  handled m events m' none k w = tt
  handled m events m' (some (events', m'')) (a, b, c, d) (a', b', c', d') = (
    λ held. replay-append events events' _ ∙ ap (replay events') (a held) ∙ a' held,
    b' ∙ b,
    c' ∙ c,
    d' ∙ d,
  )

  if-Waits :
      (m : Master F) (b : Bool) (x y : Option (List Event × Master F))
      → Waits m x
      → Waits m y
      → Waits m (if b then x else y)
  if-Waits m true x y v w = v
  if-Waits m false x y v w = w

  pub wait_signals-Waits : (signals : List ℕ) (m : Master F) → Waits m (wait_signals signals m)
  unfolding wait_signals
  wait_signals-Waits [] m =
      if-Waits m m.keep_running none (some ([], m)) tt ((λ held. refl), refl, refl, refl)
  wait_signals-Waits (signum ∷ rest) m =
      if-Waits m m.keep_running _ (some ([], m))
        (handled m (signal_handler signum m).0 (signal_handler signum m).1
          (wait_signals rest (signal_handler signum m).1) (signal_handler-Keeps signum m)
          (wait_signals-Waits rest (signal_handler signum m).1))
        ((λ held. refl), refl, refl, refl)
