-- ===== src/Resolver/Tests.antt =====
-- A resolver that is asked twice, cancelled and asked again, and an instance of the theorem.
use libsimulator.Base.{◌≡◌, ◌+◌, refl, List, [], ◌∷◌, Option, none, some, length}
use libsimulator.Net.Address.{Address}
use libsimulator.Http.{Text}
use libsimulator.Proxy.Url.{atoi, signed, skip_spaces, number_from}
use libsimulator.Tcp.Connect.Tests.{config}
use libsimulator.Resolver.{
  Resolver, Call, call, async_resolve, resolve_on, wait_for_front, endpoints, cancel, aborted,
  start_time,
}
use libsimulator.Resolver.Once.{fire_all, fresh, apply, apply_all, apply_all-once}
use libsimulator.Resolver.Counts.{Event, waiting, done, brought}

abbrev address_of : Text → Option Address
address_of name = none

abbrev asked : List Event
asked =
    Event.calls (Call.resolve 0 (97 ∷ []) (56 ∷ 48 ∷ []) 7)
    ∷ Event.calls (Call.resolve 5 (98 ∷ []) (56 ∷ 48 ∷ []) 8)
    ∷ Event.calls Call.cancels
    ∷ Event.calls (Call.resolve 9 (97 ∷ []) (56 ∷ 48 ∷ []) 7)
    ∷ []

unfoldable second : Resolver
unfolding resolve_on wait_for_front start_time endpoints cancel aborted
second =
    resolve_on address_of config (Address.v4 1)
      (cancel (
        resolve_on address_of config (Address.v4 1)
          (resolve_on address_of config (Address.v4 1) fresh 0 (97 ∷ []) 80 7) 5 (98 ∷ []) 80 8))
      9 (97 ∷ []) 80 7

runs : apply_all address_of config (Address.v4 1) asked fresh ≡ some second
unfolding apply_all apply call async_resolve atoi skip_spaces signed number_from second
runs = refl

apply_all-once_example :
    (waiting 7 second.queue + done 7 second.log ≡ brought 7 asked)
    × ((r : Resolver) × (fire_all address_of config (Address.v4 1) (length second.queue) second
          ≡ some r)
        × (r.queue ≡ [])
        × (done 7 r.log ≡ brought 7 asked))
apply_all-once_example = apply_all-once address_of config (Address.v4 1) asked second 7 runs
