-- ===== src/StressClient/Counts.antt =====
-- What a thread of the stress client counts and leaves behind, and its requests beside those of
-- the interactive client.
use ntut_network_and_system.Base.{
  ℕ, ◌+◌, ◌≡◌, ◌⊎◌, Bool, true, false, ◌&&◌, Option, none, some, List, [], ◌∷◌, All, length, done,
  Run, codes, if◌then◌else◌,
}
use ntut_network_and_system.Base.Int.{ℤ, eqb_ℤ}
use ntut_network_and_system.BankingClient.{TlsLink}
use ntut_network_and_system.Float.{FloatOps, IsEncoded}
use ntut_network_and_system.Resources.{
  Resource, attachment, segment, signalled, waited, replay, ssl_ctx, ssl_object, descriptor, Event,
  taken, returned, shut_down, IsBalanced,
}
use ntut_network_and_system.Tls.{OpenSsl, SslContext}
use ntut_network_and_system.StressClient.{Stats, Amounts, Round}
use ntut_network_and_system.StressClient.Rounds.{IsCalm}

-- Whether an event closes the descriptor.
abbrev pub closes : ℤ → Event → Bool
closes n (taken r) = false
closes n (returned ssl_ctx) = false
closes n (returned ssl_object) = false
closes n (returned (descriptor m)) = eqb_ℤ m n
closes n (returned attachment) = false
closes n (returned (segment m)) = false
closes n shut_down = false
closes n (signalled pid) = false
closes n (waited pid) = false

-- The thread gets to its loop: its context is made, `connect` succeeds, and the handshake does.
abbrev pub makes : OpenSsl → Bool
makes openssl = openssl.ctx_new && openssl.load_verify_locations (codes "certificate/ca.crt")

abbrev pub stands : OpenSsl → Bool
stands openssl = openssl.ssl_new && openssl.handshake

abbrev pub reaches : OpenSsl → Bool → Bool
reaches openssl connects = makes openssl && (connects && stands openssl)

-- Events that leave what is held as it was, and close no socket.
abbrev Harmless : ℤ → List Event → Type 0
Harmless sock events = IsBalanced events × All (λ e. closes sock e ≡ false) events

abbrev Created : OpenSsl → ℤ → Option SslContext × List Event → Type 0
Created openssl sock r =
    ((makes openssl ≡ false) × (events : List Event) × (r ≡ (none, events)) × Harmless sock events)
    ⊎ ((makes openssl ≡ true) × (ctx : SslContext) × (r ≡ (some ctx, taken ssl_ctx ∷ [])))

abbrev Connected : OpenSsl → ℤ → (Bool × Option (List ℕ)) × List Event → Type 0
Connected openssl sock r =
    ((stands openssl ≡ false)
      × (name : Option (List ℕ)) × (events : List Event) × (r ≡ ((false, name), events))
      × Harmless sock events)
    ⊎ ((stands openssl ≡ true)
        × (name : Option (List ℕ)) × (r ≡ ((true, name), taken ssl_object ∷ [])))

-- All is given back where the connection stands; where it does not, the socket is never closed.
abbrev pub Leaves : Bool → ℤ → List Event → Type 0
Leaves connects sock events =
    if connects then IsBalanced events else All (λ e. closes sock e ≡ false) events

module _ {F : Type 0} (f : FloatOps F) (enc : IsEncoded f) (amounts : Amounts F) {S : Type 0}
    (link : TlsLink S) (calm : IsCalm link) where
  -- What the handshake and the loop come to.
  abbrev Runs : OpenSsl → List (Round F) → ℤ → Stats F → Run ((Stats F × S) × List Event) → Type 0
  Runs openssl rounds sock stats run =
      (stats' : Stats F) × (s' : S) × (events : List Event) × (run ≡ done ((stats', s'), events))
      × (stats'.success_count ≡ stats.success_count + (if stands openssl then length rounds else 0))
      × (stats'.fail_count ≡ stats.fail_count)
      × ((held : List Resource)
          → replay events (some (descriptor sock ∷ ssl_ctx ∷ held)) ≡ some held)
