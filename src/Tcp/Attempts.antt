-- ===== src/Tcp/Attempts.antt =====
-- The function async_connect of include/simulator/simulator.hpp, which tries the endpoints of a range in turn. An
-- iterator is the part of the range from it on.
use libsimulator.Base.Errors.{ErrorCode, not_found, failed}
use libsimulator.Base.{
  ◌≡◌, refl, ap, ◌∙◌, Bool, true, false, List, [], ◌∷◌, ◌++◌, append_assoc, map, Option, none, some,
  if◌then◌else◌,
}
use libsimulator.Net.Address.{Endpoint}

pub data Effect : Type 0 where
  -- socket.async_connect and socket.close
  attempted : Endpoint → Effect
  closed : Effect
  -- the handler with its iterator
  handled : ErrorCode → List Endpoint → Effect

-- What `op` holds: the iterator, which is none once the handler was called.
pub record Op : Type 0 where
  pub iter : Option (List Endpoint)
  pub log : List Effect

-- `attempt()`; it dereferences the iterator, which is not the end then.
unfoldable pub attempt : Endpoint → List Endpoint → List Effect → Op
attempt ep rest log = record { iter = some (ep ∷ rest); log = log ++ attempted ep ∷ [] }

unfoldable pub async_connect : List Endpoint → Op
async_connect [] = record { iter = none; log = handled not_found [] ∷ [] }
async_connect (ep ∷ rest) = attempt ep rest []

unfoldable pub finish : Op → ErrorCode → List Endpoint → Op
finish o ec iter = record { iter = none; log = o.log ++ handled ec iter ∷ [] }

unfoldable pub on_connect_at : Op → List Endpoint → ErrorCode → Op
on_connect_at o [] ec = o
on_connect_at o (ep ∷ []) ec = finish o ec (ep ∷ [])
on_connect_at o (ep ∷ next ∷ rest) ec =
    if failed ec then attempt next rest (o.log ++ closed ∷ []) else finish o ec (ep ∷ next ∷ rest)

-- Nothing calls it once the handler was called.
unfoldable pub on_connect : Op → ErrorCode → Op
on_connect o ec = elim o.iter [ none ↦ o | some iter ↦ on_connect_at o iter ec ]

unfoldable pub on_connects : Op → List ErrorCode → Op
on_connects o [] = o
on_connects o (ec ∷ ecs) = on_connects (on_connect o ec) ecs

-- What is to happen for endpoints with the results of their attempts.
unfoldable pub expected : Endpoint → ErrorCode → List (Endpoint × ErrorCode) → List Effect
expected ep ec [] = attempted ep ∷ handled ec (ep ∷ []) ∷ []
expected ep ec ((next, nec) ∷ rest) =
    let later = expected next nec rest in
    if failed ec
    then attempted ep ∷ closed ∷ later
    else attempted ep ∷ handled ec (ep ∷ next ∷ map (λ r. r.0) rest) ∷ []

abbrev done : List Effect → Op
done log = record { iter = none; log = log }

finished : (ecs : List ErrorCode) (log : List Effect) → on_connects (done log) ecs ≡ done log
unfolding on_connects on_connect
finished [] log = refl
finished (ec ∷ ecs) log = finished ecs log

on_connects-attempt :
    (ep : Endpoint) (ec : ErrorCode) (rest : List (Endpoint × ErrorCode)) (log : List Effect)
    → on_connects (attempt ep (map (λ r. r.0) rest) log) (ec ∷ map (λ r. r.1) rest)
      ≡ record { iter = none; log = log ++ expected ep ec rest }
unfolding on_connects on_connect on_connect_at attempt finish expected
on_connects-attempt ep ec [] log =
    ap done (append_assoc log (attempted ep ∷ []) (handled ec (ep ∷ []) ∷ []))
on_connects-attempt ep ec ((next, nec) ∷ rest) log = by_result (failed ec) (
    on_connects-attempt next nec rest ((log ++ attempted ep ∷ []) ++ closed ∷ [])
    ∙ ap done (
        append_assoc (log ++ attempted ep ∷ []) (closed ∷ []) (expected next nec rest)
        ∙ append_assoc log (attempted ep ∷ []) (closed ∷ expected next nec rest)))
  where
    by_result :
        (b : Bool)
        → on_connects
            (attempt next (map (λ r. r.0) rest) ((log ++ attempted ep ∷ []) ++ closed ∷ []))
            (nec ∷ map (λ r. r.1) rest)
          ≡ done (log ++ attempted ep ∷ closed ∷ expected next nec rest)
        → on_connects
            (if b
              then attempt next (map (λ r. r.0) rest) ((log ++ attempted ep ∷ []) ++ closed ∷ [])
              else finish
                  (attempt ep (next ∷ map (λ r. r.0) rest) log)
                  ec
                  (ep ∷ next ∷ map (λ r. r.0) rest))
            (nec ∷ map (λ r. r.1) rest)
          ≡ done (
              log
              ++ (if b
                  then attempted ep ∷ closed ∷ expected next nec rest
                  else attempted ep ∷ handled ec (ep ∷ next ∷ map (λ r. r.0) rest) ∷ []))
    by_result true ih = ih
    by_result false ih =
        finished (map (λ r. r.1) rest) _
        ∙ ap done (
            append_assoc log (attempted ep ∷ [])
              (handled ec (ep ∷ next ∷ map (λ r. r.0) rest) ∷ []))

-- For a range that is not empty, with a result for the attempt at each of its endpoints: the endpoints are tried in
-- order, the socket is closed between two attempts, and the handler is called exactly once, with the
-- first endpoint whose attempt succeeds or, if none does, with the last one and its error, where the comment in
-- the source promises the end of the range. No
-- endpoint behind that one is tried.
pub async_connect-expected :
    (ep : Endpoint) (ec : ErrorCode) (rest : List (Endpoint × ErrorCode))
    → on_connects (async_connect (ep ∷ map (λ r. r.0) rest)) (ec ∷ map (λ r. r.1) rest)
      ≡ record { iter = none; log = expected ep ec rest }
unfolding async_connect
async_connect-expected ep ec rest = on_connects-attempt ep ec rest []
