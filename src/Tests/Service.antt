-- ===== src/Tests/Service.antt =====
-- A whole connection, against the file service, with a small operating system.
use remote_file_procedure_ca.Prelude.{
  ℕ, ◌+◌, ◌<◌, ◌≤◌, ◌≡◌, FitsInt, refl, ◌∙◌, ap, inr, List, [], ◌∷◌, ◌++◌, append-nil, All, arith,
  pos, length, take, drop, take-append-drop, length-take,
}
use remote_file_procedure_ca.Text.{Bytes, codes, c_string}
use remote_file_procedure_ca.Number.{print_int, print_size}
use remote_file_procedure_ca.Result.{ok}
use remote_file_procedure_ca.Marshall.Header.{number_line}
use remote_file_procedure_ca.Marshall.Fields.RoundTrip.{layout}
use remote_file_procedure_ca.Marshall.Request.RoundTrip.{request_of, request_stream}
use remote_file_procedure_ca.Marshall.Response.RoundTrip.{response_stream}
use remote_file_procedure_ca.Marshall.Tree.Shape.{tree_stream, text_line}
use remote_file_procedure_ca.Socket.{storage_size}
use remote_file_procedure_ca.Socket.Write.{room, send_message, robust_write, write_loop, frame}
use remote_file_procedure_ca.Socket.Write.Stream.{message_header}
use remote_file_procedure_ca.Server.{Process, System, Server}
use remote_file_procedure_ca.Server.Service.{op_number, serve}
use remote_file_procedure_ca.Server.Wire.{HasRoom, replied}
use remote_file_procedure_ca.Server.Loop.{framed}
use remote_file_procedure_ca.Client.Waiting.{joined}
use remote_file_procedure_ca.Connection.Stream.{AreBounded}
use remote_file_procedure_ca.FileService.{
  Call, IsCall, open_call, read_call, getdirtree_call, SystemLaws, clear, procedure, params,
  perform,
}
use remote_file_procedure_ca.FileService.Handlers.{serve-replied}
use remote_file_procedure_ca.FileService.Stream.{TreesFit, streams, perform_all, TakesAll}
use remote_file_procedure_ca.Tests.Handlers.{tiny, leaf, leaf-IsTree}

abbrev moved : Process ℕ → Process ℕ
moved p = record { errno = pos 0; world = 1 + p.world }

-- The operating system of the other tests, with `read`, `write`, `lseek` and `getdirentries` that keep
-- to the sizes that they are given.
abbrev pub lawful : System ℕ
lawful = record tiny {
  sys_read =
      λ fd count p. (pos (length (take count (codes "ab"))), take count (codes "ab"), moved p);
  sys_write = λ fd buf p. (pos (length (take 3 buf)), moved p);
  sys_lseek = λ fd offset whence p. (pos 10, moved p);
  sys_getdirentries = λ fd nbytes basep p.
      (pos (length (take nbytes (codes "ab"))), take nbytes (codes "ab"), pos 7, moved p);
}

leaf-small : length (tree_stream leaf) ≤ 100
unfolding tree_stream text_line number_line c_string print_int print_size
leaf-small = omega arith

lawful-errno : (path : Bytes) (w : ℕ) → FitsInt (lawful.sys_getdirtree path (clear w)).1.errno
lawful-errno [] w = omega arith
lawful-errno (c ∷ path) w = omega arith

pub laws : SystemLaws lawful
laws = record {
  stat_law = omega arith;
  open_fits = λ path flags mode w. (omega arith, omega arith);
  close_fits = λ fd w. (omega arith, omega arith);
  read_fits = λ fd count w. (
    omega (arith, length-take count (codes "ab")),
    refl,
    omega (arith, length-take count (codes "ab")),
    omega arith,
  );
  write_fits = λ fd buf w. (omega (arith, length-take 3 buf), omega arith);
  lseek_fits = λ fd offset whence w. (omega arith, omega arith);
  stat_fits = λ path w. (omega arith, refl, omega arith);
  unlink_fits = λ path w. (omega arith, omega arith);
  getdirentries_fits = λ fd nbytes basep w. (
    omega (arith, length-take nbytes (codes "ab")),
    refl,
    omega (arith, length-take nbytes (codes "ab")),
    omega arith,
    omega arith,
  );
  getdirtree_fits = lawful-errno;
}

abbrev pub calls : List Call
calls =
    open_call (codes "f") (pos 65) 420
    ∷ read_call (pos 12348) (codes "wxyz") 4
    ∷ getdirtree_call []
    ∷ []

abbrev pub start : Server ℕ
start = record {
  process = record { errno = pos 5; world = 0 };
  send_events = room 1000 ∷ room 1000 ∷ room 1000 ∷ [];
  wire = [];
}

-- The stream of the calls, in two pieces.
abbrev pub pieces : List Bytes
pieces = take 30 (framed (streams calls)) ∷ drop 30 (framed (streams calls)) ∷ []

pub pieces-joined : joined pieces ≡ framed (streams calls)
pieces-joined =
    ap (λ l. take 30 (framed (streams calls)) ++ l) (append-nil (drop 30 (framed (streams calls))))
    ∙ take-append-drop 30 (framed (streams calls))

pub calls-AreBounded : AreBounded 200 (streams calls)
unfolding request_stream layout number_line message_header print_int print_size
calls-AreBounded = (omega arith, (omega arith, (omega arith, tt)))

pub pieces-fit : All (λ chunk. 200 + length chunk < storage_size) pieces
unfolding request_stream layout number_line message_header print_int print_size
pieces-fit = (omega arith, (omega arith, tt))

pub calls-TakesAll : TakesAll start.send_events (perform_all lawful calls 0).1
unfolding response_stream layout number_line message_header print_int print_size tree_stream
    text_line c_string send_message robust_write write_loop frame
calls-TakesAll = (
  (omega arith, tt, omega arith),
  ((omega arith, tt, omega arith), ((omega arith, tt, omega arith), tt)),
)

pub calls-AreCalls : All IsCall calls
calls-AreCalls = (
  (omega arith, omega arith, omega arith, omega arith),
  ((omega arith, omega arith, omega arith), ((tt, omega arith), tt)),
)

-- The tree of the last call fits.
pub calls-TreesFit : TreesFit lawful calls 0
calls-TreesFit = (tt, (tt, (inr (leaf-IsTree, omega (arith, leaf-small)), tt)))

-- An `open` whose descriptor moves up by `OFFSET`.
abbrev opened : List Bytes
opened = codes "12348" ∷ []

opened-performed :
    perform lawful (open_call (codes "f") (pos 65) 420) (clear 0)
    ≡ (opened, (perform lawful (open_call (codes "f") (pos 65) 420) (clear 0)).1)
unfolding print_int print_size
opened-performed = refl

opened-HasRoom :
    HasRoom start (
      response_stream
        (perform lawful (open_call (codes "f") (pos 65) 420) (clear 0)).1.errno
        opened)
unfolding response_stream layout number_line message_header print_int print_size
opened-HasRoom = (omega arith, tt, omega arith)

serve-replied_example :
    serve lawful (procedure (open_call (codes "f") (pos 65) 420)) start (
      request_of
        (op_number (procedure (open_call (codes "f") (pos 65) 420)))
        (params (open_call (codes "f") (pos 65) 420)))
    ≡ ok (
        replied start (perform lawful (open_call (codes "f") (pos 65) 420) (clear 0)).1 (
          response_stream
            (perform lawful (open_call (codes "f") (pos 65) 420) (clear 0)).1.errno
            opened))
serve-replied_example =
    serve-replied lawful laws (open_call (codes "f") (pos 65) 420) start opened
      (perform lawful (open_call (codes "f") (pos 65) 420) (clear 0)).1
      (omega arith, omega arith, omega arith, omega arith) tt opened-performed opened-HasRoom
