-- ===== src/Tests/Serving.antt =====
-- The whole server with a small kernel and a small operating system.
use remote_file_procedure_ca.Prelude.{ℕ, refl, [], ◌∷◌, arith, pos}
use remote_file_procedure_ca.Connection.{closing}
use remote_file_procedure_ca.Listener.{Connections, main}
use remote_file_procedure_ca.Listener.Serving.{Serves, main-Performed}
use remote_file_procedure_ca.Tests.Network.{Kernel, toy, toy_view, toy_processes, boot}
use remote_file_procedure_ca.Tests.Service.{
  lawful, laws, calls, start, pieces, pieces-joined, calls-AreBounded, pieces-fit, calls-TakesAll,
  calls-AreCalls, calls-TreesFit,
}

abbrev clients : Connections Kernel ℕ
clients = record { start = λ fd k. start; arrivals = λ fd k. closing pieces [] }

main-Performed_example :
    Serves toy lawful clients toy_view
      (λ fd k. calls)
      (pos 2 ∷ [])
      (main toy lawful clients 9 2 boot)
main-Performed_example =
    main-Performed toy lawful clients toy_view (λ fd k. calls) laws
      (λ fd k. (
        200,
        pieces,
        [],
        refl,
        calls-AreCalls,
        calls-TreesFit,
        pieces-joined,
        calls-AreBounded,
        omega arith,
        pieces-fit,
        calls-TakesAll,
      ))
      9 2 boot toy_processes (omega arith)
