-- ===== src/Resolver.antt =====
-- resolver.cpp: the queue of look-ups. A handler is named by a number. A result is the endpoint; the host name and the
-- service that it also carries are those of the call. `make_address` is Boost's parser of
-- addresses, and `atoi` is that of Proxy/Url. What a handler calls in its turn is a list of calls.
pub mod Counts
pub mod Calls
pub mod Once
mod Tests
use libsimulator.Base.Errors.{ErrorCode, no_error, operation_aborted, is_aborted}
use libsimulator.Base.{
  ℕ, ◌+◌, Bool, true, false, List, [], ◌∷◌, ◌++◌, Option, none, some, leb, if◌then◌else◌,
}
use libsimulator.Net.Address.{Address, Endpoint}
use libsimulator.Http.{Text}
use libsimulator.Proxy.Url.{atoi}
use libsimulator.Network.{Config}

pub record Result : Type 0 where
  pub completion_time : ℕ
  pub err : ErrorCode
  pub ips : List Endpoint
  pub handler : ℕ

pub data Effect : Type 0 where
  -- a handler is called or posted with its error code and endpoints
  completed : ℕ → ErrorCode → List Endpoint → Effect

pub record Resolver : Type 0 where
  pub queue : List Result
  -- the time that the pending wait of m_timer ends at
  pub timer : Option ℕ
  pub log : List Effect

-- `m_timer.expires_at(m_queue.front().completion_time)` and async_wait; an earlier wait is aborted.
unfoldable pub wait_for_front : Resolver → Resolver
wait_for_front r = elim r.queue [ [] ↦ r | v ∷ rest ↦ record r { timer = some v.completion_time } ]

unfoldable pub endpoints : List Address → ℕ → List Endpoint
endpoints [] port = []
endpoints (a ∷ as_) port = record { address = a; port = port } ∷ endpoints as_ port

-- The time from which a look-up counts.
unfoldable pub start_time : ℕ → List Result → ℕ
start_time now [] = now
start_time now (v ∷ rest) = v.completion_time

unfoldable pub aborted : List Result → List Effect
aborted [] = []
aborted (v ∷ rest) = completed v.handler operation_aborted v.ips ∷ aborted rest

-- cancel leaves the timer alone.
unfoldable pub cancel : Resolver → Resolver
cancel r = record r { queue = []; log = r.log ++ aborted r.queue }

-- What a user calls, also from within a handler.
pub data Call : Type 0 where
  resolve : ℕ → Text → Text → ℕ → Call
  cancels : Call

-- The end of on_lookup, with what was left of the queue before the handler was called. The front of a queue that
-- the handler has emptied is undefined: none.
unfoldable pub rearm : List Result → Resolver → Option Resolver
rearm [] r = some r
rearm (v ∷ left) r = elim r.queue [ [] ↦ none | u ∷ us ↦ some (wait_for_front r) ]

module _ (make_address : Text → Option Address) (config : Config) (requestor : Address) where
  -- With the port; the times are in nanoseconds.
  unfoldable pub resolve_on : Resolver → ℕ → Text → ℕ → ℕ → Resolver
  resolve_on r now hostname port handler = elim (make_address hostname) [
    | some a ↦ wait_for_front (record r {
      queue =
          record {
            completion_time = now + 1000;
            err = no_error;
            ips = endpoints (a ∷ []) port;
            handler = handler;
          }
          ∷ r.queue;
    })
    | none ↦
        let (delay, result, ec) = config.hostname_lookup requestor hostname in
        wait_for_front (record r {
          queue =
              r.queue
              ++ record {
                completion_time = start_time now r.queue + delay;
                err = ec;
                ips = endpoints result port;
                handler = handler;
              }
                ∷ [];
        })
  ]

  -- async_resolve; a service that is not a port fails an assertion: none.
  unfoldable pub async_resolve : Resolver → ℕ → Text → Text → ℕ → Option Resolver
  async_resolve r now hostname service handler = elim (atoi service) [
    | none ↦ none
    | some port ↦ if leb port 65535 then some (resolve_on r now hostname port handler) else none
  ]

  unfoldable pub call : Call → Resolver → Option Resolver
  call (resolve now hostname service handler) r = async_resolve r now hostname service handler
  call cancels r = some (cancel r)

  unfoldable pub call_all : List Call → Resolver → Option Resolver
  call_all [] r = some r
  call_all (c ∷ cs) r = elim (call c r) [ none ↦ none | some r' ↦ call_all cs r' ]

  -- The handler makes the calls `during`.
  unfoldable pub on_lookup : Resolver → ErrorCode → List Call → Option Resolver
  on_lookup r ec during = if is_aborted ec then some r else elim r.queue [
    | [] ↦ some r
    | v ∷ rest ↦
        let called =
          call_all during
            (record r { queue = rest; log = r.log ++ completed v.handler v.err v.ips ∷ [] }) in
        elim called [ none ↦ none | some r' ↦ rearm rest r' ]
  ]

  -- The timer ends the wait.
  abbrev pub fire : Resolver → List Call → Option Resolver
  fire r during = elim r.timer [
    | none ↦ some r
    | some t ↦ on_lookup (record r { timer = none }) no_error during
  ]
