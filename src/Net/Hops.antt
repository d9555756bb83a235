-- ===== src/Net/Hops.antt =====
-- The class `route`, forward_packet, the hops that every packet can meet (sink_forwarder and nat),
-- and the two ends of a channel.
use libsimulator.Base.{
  ℕ, ◌≡◌, refl, subst, option_rule, List, [], ◌∷◌, ◌++◌, Option, none, some, ◌⊎◌, arith,
  if◌then◌else◌, update,
}
use libsimulator.Net.Address.{Address, Endpoint, endpoint_eq, endpoint_eq_iff}
use libsimulator.Net.Packet.{Packet}

abbrev pub Route : Type 0
Route = List ℕ

-- `pop_front`: the sink, or a null pointer, and the route that is left.
unfoldable pub pop_front : Route → Option ℕ × Route
pop_front [] = (none, [])
pop_front (h ∷ hs) = (some h, hs)

unfoldable pub append : Route → Route → Route
append r s = r ++ s

unfoldable pub prepend : Route → Route → Route
prepend r s = s ++ r

-- `hops.back() = s`; on an empty route that is undefined, and here it is none.
unfoldable pub replace_last : Route → ℕ → Option Route
replace_last [] s = none
replace_last (h ∷ []) s = some (s ∷ [])
replace_last (h ∷ k ∷ ks) s = elim (replace_last (k ∷ ks) s) [ none ↦ none | some r ↦ some (h ∷ r) ]

-- `hops.back()`, where none is undefined
unfoldable pub last : Route → Option ℕ
last [] = none
last (h ∷ []) = some h
last (h ∷ k ∷ ks) = last (k ∷ ks)

pub last-append : (r : Route) (h : ℕ) → last (append r (h ∷ [])) ≡ some h
unfolding last append
last-append [] h = refl
last-append (x ∷ []) h = refl
last-append (x ∷ y ∷ r) h = last-append (y ∷ r) h

pub last-append_whole : (r s : Route) (h : ℕ) → last s ≡ some h → last (append r s) ≡ some h
unfolding last append
last-append_whole [] s h e = e
last-append_whole (x ∷ []) [] h e = ground arith
last-append_whole (x ∷ []) (y ∷ s) h e = e
last-append_whole (x ∷ y ∷ r) s h e = last-append_whole (y ∷ r) s h e

pub replace_last-last : (r r' : Route) (h : ℕ) → replace_last r h ≡ some r' → last r' ≡ some h
unfolding last replace_last append
replace_last-last [] r' h e = ground arith
replace_last-last (x ∷ []) r' h e = let q : h ∷ [] ≡ r' = cc in subst (λ t. last t ≡ some h) q refl
replace_last-last (x ∷ y ∷ r) r' h e =
    option_rule (λ (o : Option Route). o ≡ some r' → last r' ≡ some h) (replace_last (y ∷ r) h)
      (λ _ n. ground arith)
      (λ s q n.
        let w : x ∷ s ≡ r' = cc in
        subst (λ t. last t ≡ some h) w
          (last-append_whole (x ∷ []) s h (replace_last-last (y ∷ r) s h q)))
      e

-- forward_packet: the hop that gets the packet, with the route behind it; none is "packet lost".
unfoldable pub forward_packet : Packet → Option (ℕ × Packet)
unfolding pop_front
forward_packet p =
    let (hop, rest) = pop_front p.hops in
    elim hop [ none ↦ none | some h ↦ some (h, record p { hops = rest }) ]

-- The destination of a sink_forwarder, with the packet; a reset forwarder drops it.
unfoldable pub forwarder_incoming : Option ℕ → Packet → Option (ℕ × Packet)
forwarder_incoming none p = none
forwarder_incoming (some dst) p = some (dst, p)

-- The fields with index 0 are those of the end that initiated the connection.
pub record Channel : Type 0 where
  pub hops0 : Route
  pub hops1 : Route
  pub ep0 : Endpoint
  pub ep1 : Endpoint
  pub visible_ep0 : Endpoint
  pub visible_ep1 : Endpoint
  pub bytes_sent0 : ℕ
  pub bytes_sent1 : ℕ

-- `assert(false)` and -1 are none.
unfoldable pub remote_idx : Channel → Endpoint → Option ℕ
remote_idx c self =
    if endpoint_eq c.ep0 self then some 1 else if endpoint_eq c.ep1 self then some 0 else none

unfoldable pub self_idx : Channel → Endpoint → Option ℕ
self_idx c self =
    if endpoint_eq c.ep0 self then some 0 else if endpoint_eq c.ep1 self then some 1 else none

abbrev pub with_address : Endpoint → Address → Endpoint
with_address ep a = record ep { address = a }

abbrev set_visible : Channel → Address → Channel
set_visible c a = record c { visible_ep0 = with_address c.visible_ep0 a }

-- nat::incoming_packet up to the call of forward_packet, over the store of channels.
unfoldable pub nat_incoming : Address → (ℕ → Channel) → Packet → (ℕ → Channel) × Packet
nat_incoming external_addr channels p =
    let p' = record p { from = with_address p.from external_addr } in
    elim p.channel [
      | none ↦ (channels, p')
      | some c ↦ (update channels c (set_visible (channels c) external_addr), p')
    ]

-- An endpoint has an index of its own exactly if it has one of the other side, and they are 0
-- and 1 in some order.
pub self_idx-remote_idx :
    (c : Channel) (self : Endpoint)
    → ((self_idx c self ≡ none) × (remote_idx c self ≡ none))
      ⊎ ((self_idx c self ≡ some 0) × (remote_idx c self ≡ some 1) × (self ≡ c.ep0))
      ⊎ ((self_idx c self ≡ some 1) × (remote_idx c self ≡ some 0) × (self ≡ c.ep1))
unfolding self_idx remote_idx
self_idx-remote_idx c self = ground (arith, endpoint_eq_iff c.ep0 self, endpoint_eq_iff c.ep1 self)

-- Behind two network address translators a packet and its channel show the address of the second
-- one only; the port, the payload, the route and the other end of the channel are what
-- they were.
pub nat_incoming_twice :
    (a b : Address) (channels : ℕ → Channel) (p : Packet) (i : ℕ)
    → let first = nat_incoming a channels p in
      let second = nat_incoming b first.0 first.1 in
      (second.1 ≡ record p { from = with_address p.from b })
      × (second.0 i ≡ (nat_incoming b channels p).0 i)
      × ((second.0 i).ep0 ≡ (channels i).ep0)
      × ((second.0 i).visible_ep1 ≡ (channels i).visible_ep1)
      × ((second.0 i).visible_ep0.port ≡ (channels i).visible_ep0.port)
unfolding nat_incoming
nat_incoming_twice a b channels p i = ground arith
