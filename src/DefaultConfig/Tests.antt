-- ===== src/DefaultConfig/Tests.antt =====
-- An instance of the theorem about routes, and the routes of a new configuration.
use libsimulator.Base.{ℕ, ◌≡◌, ◌≢◌, refl, [], ◌∷◌, none, some, arith, length, ◌<◌}
use libsimulator.Net.Address.{Address}
use libsimulator.DefaultConfig.{DefaultConfig, find_modem, build, channel_route}
use libsimulator.DefaultConfig.Routes.{
  Request, inward, outward, Apart, answer, answer_all, modem_of, answer-stable,
}

abbrev empty : DefaultConfig
empty = record { network = none; outgoing = []; incoming = []; made = []; next = 0 }

abbrev home : Request
home = inward (Address.v4 1)

abbrev away : Request
away = inward (Address.v4 2)

nothing_below : (r : Request) (n : ℕ) → modem_of empty r ≡ some n → n < 0
unfolding modem_of find_modem
nothing_below (inward a) n e = ground arith
nothing_below (outward a) n e = ground arith

nothing_apart :
    (r s : Request) (n : ℕ) → modem_of empty r ≡ some n → modem_of empty s ≡ some n → r ≡ s
nothing_apart r s n e f = ground (arith, nothing_below r n e)

empty-Apart : Apart empty
empty-Apart = record { below = nothing_below; apart = nothing_apart }

answer-stable_example :
    let later = answer_all (answer empty home).0 (away ∷ outward (Address.v4 1) ∷ []) in
    (length (answer empty home).1 ≡ 1)
    × ((answer later home).1 ≡ (answer empty home).1)
    × ((answer later away).1 ≢ (answer empty home).1)
answer-stable_example =
    answer-stable empty home away (away ∷ outward (Address.v4 1) ∷ []) empty-Apart
      (λ e. ground arith)

-- The network's queue comes first.
built : channel_route (build empty) ≡ some (0 ∷ [])
unfolding channel_route build
built = refl
