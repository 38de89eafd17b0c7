-- ===== src/Tests/Handlers.antt =====
-- rpc/server.c with a small operating system.
use remote_file_procedure_ca.Prelude.{
  ℕ, ◌+◌, ◌≡◌, refl, [], ◌∷◌, ◌++◌, arith, ◌≤◌, leb, if◌then◌else◌, ℤ, pos, negsuc, length,
}
use remote_file_procedure_ca.Text.{Bytes, codes, c_string}
use remote_file_procedure_ca.Number.{print_int, print_size}
use remote_file_procedure_ca.Marshall.Request.RoundTrip.{request_of}
use remote_file_procedure_ca.Marshall.Tree.{DirTree, null, node, nil}
use remote_file_procedure_ca.Marshall.Tree.Shape.{IsTree, text_line, tree_stream}
use remote_file_procedure_ca.Marshall.Header.{number_line}
use remote_file_procedure_ca.Socket.Write.{room}
use remote_file_procedure_ca.Server.{Process, System, Server}
use remote_file_procedure_ca.Server.Handlers.{serve_getdirtree}
use remote_file_procedure_ca.Server.Service.{op_number, getdirtree_op}
use remote_file_procedure_ca.Server.Wire.{replied}
use remote_file_procedure_ca.Server.Tree.{serve_getdirtree-by_size}
use remote_file_procedure_ca.Result.{ok, err, bad_memory}
use remote_file_procedure_ca.Socket.{storage_size}
use remote_file_procedure_ca.Socket.Write.Stream.{message_header, total_room}
use remote_file_procedure_ca.Marshall.Fields.RoundTrip.{layout}
use remote_file_procedure_ca.Marshall.Response.RoundTrip.{response_stream}

abbrev pub leaf : DirTree
leaf = node (codes "d" ++ 0 ∷ []) (pos 0) nil

-- The world is the number of calls so far; `errno` is set by the calls that fail.
abbrev calls : ℤ → Process ℕ → Process ℕ
calls e p = record { errno = e; world = 1 + p.world }

-- One file, with descriptor 3 and content "ab"; there is a tree at the empty path only.
abbrev pub tiny : System ℕ
tiny = record {
  stat_size = 4;
  sys_open = λ path flags mode p. (pos 3, calls (pos 0) p);
  sys_close = λ fd p. (negsuc 0, calls (pos 9) p);
  sys_read = λ fd count p. (pos 2, codes "ab", calls (pos 0) p);
  sys_write = λ fd buf p. (pos (length buf), calls (pos 0) p);
  sys_lseek = λ fd offset whence p. (offset, calls (pos 0) p);
  sys_stat = λ path p. (pos 0, codes "stat", calls (pos 0) p);
  sys_unlink = λ path p. (negsuc 0, calls (pos 2) p);
  sys_getdirentries = λ fd nbytes basep p. (pos 2, codes "ab", pos 7, calls (pos 0) p);
  sys_getdirtree =
      λ path p. elim path [ [] ↦ (leaf, calls (pos 0) p) | c ∷ cs ↦ (null, calls (pos 2) p) ];
}

abbrev pub fresh : Server ℕ
fresh = record {
  process = record { errno = pos 5; world = 0 };
  send_events = room 1000 ∷ [];
  wire = [];
}

abbrev pub done : ℤ → Process ℕ
done e = record { errno = e; world = 1 }

abbrev path : Bytes
path = codes "f"

pub leaf-IsTree : IsTree leaf
unfolding c_string
leaf-IsTree = ((refl, (omega arith, refl, tt), omega arith), refl, omega arith, tt)

-- Its response, which fits.
leaf_reply :
    response_stream (pos 0) (tree_stream leaf ∷ [])
    ≡ codes "Errno:0\r\nReturnNum:1\r\n24\r\nNodeName:d\r\nChildNum:0\r\n\r\n"
unfolding response_stream layout tree_stream text_line number_line c_string print_int print_size
leaf_reply = refl

leaf-fits :
    length (
      message_header (response_stream (pos 0) (tree_stream leaf ∷ []))
      ++ response_stream (pos 0) (tree_stream leaf ∷ []))
    ≤ total_room fresh.send_events
unfolding response_stream layout tree_stream text_line number_line c_string print_int print_size
    message_header
leaf-fits = omega arith

serve_getdirtree-by_size_example :
    serve_getdirtree tiny fresh (request_of (op_number getdirtree_op) ([] ∷ [])) ≡ (
      if leb (length (response_stream (pos 0) (tree_stream leaf ∷ []))) (storage_size + 1)
      then ok (replied fresh (done (pos 0)) (response_stream (pos 0) (tree_stream leaf ∷ [])))
      else err bad_memory)
serve_getdirtree-by_size_example =
    serve_getdirtree-by_size tiny fresh (done (pos 0)) (omega arith) [] leaf tt refl leaf-IsTree tt
      leaf-fits
