-- ===== src/Socks/Tests.antt =====
-- Instances of the theorems about the SOCKS proxy.
use libsimulator.Base.Errors.{no_error}
use libsimulator.Base.{◌≡◌, some, arith}
use libsimulator.Net.Address.{Address, Endpoint}
use libsimulator.Socks.{Bytes, format_response, on_request1, connects}
use libsimulator.Socks.Reply.{on_request1-format_response}

on_request1-format_response_example :
    (request : Bytes) × (format_response 5 (Address.v4 3232235777) 8080 1 ≡ some request)
    × (on_request1 5 request (Address.v4 7) no_error 10
        ≡ connects (record { address = Address.v4 3232235777; port = 8080 }))
on_request1-format_response_example =
    on_request1-format_response 3232235777 8080 (Address.v4 7) (omega arith) (omega arith)

abbrev client : Endpoint
client = record { address = Address.v4 1; port = 4000 }

abbrev server : Endpoint
server = record { address = Address.v4 5; port = 53 }
