-- ===== src/Tests/Malformed.antt =====
-- Headers that bring `service` down or block it, with a small operating system.
use remote_file_procedure_ca.Prelude.{ℕ, ◌≡◌, refl, [], ◌∷◌, arith, replicate}
use remote_file_procedure_ca.Text.{Bytes, codes}
use remote_file_procedure_ca.Result.{ok}
use remote_file_procedure_ca.Socket.{Storage}
use remote_file_procedure_ca.Server.{Server}
use remote_file_procedure_ca.Server.Service.{service}
use remote_file_procedure_ca.Connection.{closing}
use remote_file_procedure_ca.Connection.Malformed.{service-no_colon}
use remote_file_procedure_ca.Tests.Handlers.{tiny, fresh}

-- A header that has lost its colon, behind which a good message arrives.
abbrev colonless : Storage
colonless = record { buf = codes "Length 5\r\n\r\nhello"; size = 17 }

service-no_colon_example :
    (server' : Server ℕ) × (service tiny
        (closing (codes "Message-Length:5" ∷ codes "\r\n\r\nhello" ∷ []) [])
        []
        fresh
        colonless
      ≡ ok server')
    × (server'.process.world ≡ 0)
    × (server'.wire ≡ [])
service-no_colon_example =
    service-no_colon (codes "Length 5") (omega arith) (omega arith) tiny
      (codes "Message-Length:5" ∷ codes "\r\n\r\nhello" ∷ []) [] fresh colonless (codes "hello")
      (0, refl, refl) (omega arith)

-- A hundred zeros in front of a number.
abbrev zeros_text : Bytes
zeros_text = replicate 100 48
