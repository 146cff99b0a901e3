-- ===== src/Resources.antt =====
-- What a process takes and gives back, in order, and the other calls whose place among those
-- matters.
use ntut_network_and_system.Base.{
  ◌≡◌, refl, ap, ◌∙◌, Bool, true, false, Option, none, some, List, [], ◌∷◌, ◌++◌, if◌then◌else◌,
}
use ntut_network_and_system.Base.Int.{eqb_ℤ-refl, ℤ, eqb_ℤ}

pub data Resource : Type 0 where
  ssl_ctx : Resource
  ssl_object : Resource
  descriptor : ℤ → Resource
  attachment : Resource  -- the table that shmat maps
  segment : ℤ → Resource  -- the segment that shmget makes

pub data Event : Type 0 where
  taken : Resource → Event
  returned : Resource → Event
  shut_down : Event  -- SSL_shutdown
  signalled : ℤ → Event  -- kill with SIGTERM
  waited : ℤ → Event  -- waitpid

abbrev pub same : Resource → Resource → Bool
same ssl_ctx ssl_ctx = true
same ssl_object ssl_object = true
same (descriptor m) (descriptor n) = eqb_ℤ m n
same attachment attachment = true
same (segment m) (segment n) = eqb_ℤ m n
same r t = false

-- What is held after one event, the last resource taken first. Only that one can be given back;
-- anything else is none.
abbrev pub next_held : Event → List Resource → Option (List Resource)
next_held (taken r) held = some (r ∷ held)
next_held (returned r) [] = none
next_held (returned r) (t ∷ held) = if same r t then some held else none
next_held shut_down held = some held
next_held (signalled pid) held = some held
next_held (waited pid) held = some held

abbrev pub replay : List Event → Option (List Resource) → Option (List Resource)
replay [] held = held
replay (e ∷ es) none = none
replay (e ∷ es) (some held) = replay es (next_held e held)

-- Everything taken is given back, in the opposite order, and nothing else is.
abbrev pub IsBalanced : List Event → Type 0
IsBalanced events = (held : List Resource) → replay events (some held) ≡ some held

replay-none : (es : List Event) → replay es none ≡ none
replay-none [] = refl
replay-none (e ∷ es) = refl

pub replay-append :
    (xs ys : List Event) (held : Option (List Resource))
    → replay (xs ++ ys) held ≡ replay ys (replay xs held)
replay-append [] ys held = refl
replay-append (x ∷ xs) [] none = refl
replay-append (x ∷ xs) (y ∷ ys) none = refl
replay-append (x ∷ xs) ys (some held) = replay-append xs ys (next_held x held)

pub append-IsBalanced : (xs ys : List Event) → IsBalanced xs → IsBalanced ys → IsBalanced (xs ++ ys)
append-IsBalanced xs ys b c =
    λ held. replay-append xs ys (some held) ∙ ap (replay ys) (b held) ∙ c held

pub replay-closed :
    (n : ℤ) (es : List Event) (held : List Resource)
    → replay (returned (descriptor n) ∷ es) (some (descriptor n ∷ held)) ≡ replay es (some held)
replay-closed n es held = ap (λ b. replay es (if b then some held else none)) (eqb_ℤ-refl n)

-- The table is detached, its segment removed and the TLS context freed.
abbrev pub gives_back : ℤ → List Event
gives_back id = returned attachment ∷ returned (segment id) ∷ returned ssl_ctx ∷ []

pub replay-gives_back :
    (id : ℤ) (held : List Resource)
    → replay (gives_back id) (some (attachment ∷ segment id ∷ ssl_ctx ∷ held)) ≡ some held
replay-gives_back id held =
    ap (λ b. replay (returned ssl_ctx ∷ []) (if b then some (ssl_ctx ∷ held) else none))
      (eqb_ℤ-refl id)
