-- ===== src/Lib.antt =====
-- Remote file procedure calls: a verification of the programs under rpc/.
--
-- A client program runs with rpc/mylib.c preloaded, which replaces `open`, `close`, `read`, `write`,
-- `lseek`, `stat`, `unlink`, `getdirentries` and `getdirtree`. A stub packs its arguments into a
-- request, sends it to the server, and waits for a response, whose values and errno it gives to the
-- caller. The server (rpc/server.c) forks a process for each connection, which reads requests, makes
-- the system call for each, and answers. Requests and responses become byte streams in
-- rpc/marshall.c; rpc/socket.c puts a stream behind a header `Message-Length:n` and moves it over TCP.
--
-- The parts and their files:
--   Prelude, Text, Number, Result   shared: lists by native numbers, integers and machine types, C
--                     strings (`strstr`), the number formats of `sprintf`, `sscanf`, `atoi` and
--                     `atol`, and the outcomes of C code.
--   Marshall          rpc/marshall.h and rpc/marshall.c. Request and Response have `rpc_request` and
--                     `rpc_response` with `init_`, `serialize_`, `deserialize_`, `pack_` and
--                     `marshall_` functions; Fields has the loops that both share; Tree has
--                     `struct dirtreenode` of include/dirtree.h and `serialize_node`,
--                     `deserialize_node`; Print has `print_request` and `print_response`.
--   Socket            rpc/socket.h and rpc/socket.c. Write has `robust_write` and `send_message`, Read
--                     has `greedy_read`, Message has `parse_message`.
--   Server            rpc/server.c. Handlers has the `serve_` functions, Service has `service`: its
--                     `switch` is `dispatch`, its inner loop `serve_messages`.
--   Client            rpc/mylib.c. Client.antt has `send_request` and `wait_response`, Stubs has the
--                     replaced functions, with `_stub` behind their names.
--   Session           a stub and the server's loop, joined by the bytes on the connection: Transfer for
--                     `read` and `write`, Descriptor for `close` and `lseek`, Path for `open`, `stat` and
--                     `unlink`, Directory for `getdirentries` and `getdirtree`;
--                     Sequence for any number of calls on one connection.
--   Connection        `service` from the first byte to the close; Stream for any cut of the stream, and
--                     Malformed for headers that no client of the library sends.
--   FileService       what the server promises, as calls on files with no byte stream, and the proof that
--                     the handlers and `service` keep it.
--   Network           the set-up of sockets in rpc/socket.c, and `_init` of rpc/mylib.c.
--   Listener          `main` of rpc/server.c, which accepts connections and forks; Serving
--                     joins it to FileService.
--   Memory            which blocks of the heap are in use: what rpc/marshall.c allocates, and its
--                     `free_` functions. Arrays has requests and responses, Tree directory trees.
--   TcpSample         tcp-sample/client.c and tcp-sample/server.c, whole.
--   Interpose         interpose/mylib.c, the sample of a preloaded library.
--   Tests             runs at concrete inputs.
--
-- How the state corresponds. A heap block or a stack buffer is the list of its bytes, and a pointer
-- into it is the rest of the list. A block from `calloc(n + 1)` that a text is copied to ends with its
-- NUL. The receive buffer of a connection is `Storage`: the list `buf`, behind which all cells are 0, as
-- `calloc` and `memset` left them, and the count of the bytes in use. Access outside a block, or through
-- NULL, is the fault `bad_memory`; a failed `assert` is the fault `assertion`; a field that `sscanf` does
-- not set is the fault `uninitialised` in memory from `malloc`, and 0 in memory from `calloc`.
--
-- Buffers and bounds. `sprintf` and `memcpy` to `temp_buf` are checked against its 1024 bytes,
-- `message_len_buf` against its 100, and the streams against `STORAGE_SIZE + 1`. `int`, `ssize_t`, `long`
-- and `size_t` keep their widths: a conversion wraps around, and so does the sum that `parse_message`
-- compares with the buffer's size. Bytes are numbers; nothing depends on their being below 256.
--
-- The kernel is a list of events, one for each call of `send` or `recv`: any list can be chosen, so a
-- theorem about all lists holds for all short writes, interruptions and errors. The calls of
-- `greedy_read` each have their own list, at whose end `recv` says that no more has arrived. A loop that
-- still waits when its events end is the outcome `blocked`.
--
-- The operating system and libdirtree, which are not part of the repository's code, are the parameter
-- `System`: functions on a process with its errno and the rest of the world. The original functions that
-- rpc/mylib.c finds with `dlsym` are those of a `System` as well.
--
-- `errno` is part of the process. Each handler of the server saves it, puts 0 there for its call, and puts
-- it back. What `send` and `recv` leave there is `send_errno` and `read_errno`, with the numbers of Linux,
-- so EAGAIN stands there behind an exchange, where nothing else writes to it. Other library functions,
-- which only could write to it where they fail, are taken to leave it.
--
-- libdirtree promises no bound on a tree. Theorems on `getdirtree` have conditions on the tree of the call
-- that they are about: its names are lines that fit into `temp_buf`, and its stream fits into the
-- server's buffer; a larger one overruns it.
--
-- Fuel. The recursion of `deserialize_node` has the length of its buffer and one as fuel, since each node
-- takes bytes off the buffer, and the inner loop of `service` has the size of its buffer and one, since
-- each message does.
--
-- `main` takes the number of its rounds, and one fuel for each harvest of children: more than there are
-- rounds and earlier children is enough.
--
-- Processes. The network calls, `fork` and `waitpid` are the parameter `Network`, on a state of the
-- kernel. What the code relies on of them is named in `SocketLaws` and `ProcessLaws`: how a call moves the
-- socket it is about, which descriptors it opens and closes, and that each positive result of `waitpid` is
-- one child less. `fork` returns in one of two processes, and a run goes on in that one, so it is the life
-- of the parent or of one child.
--
-- Memory. Contents and addresses are modelled apart: a block is the list of its bytes in the other
-- modules, and an address in Memory, where the heap is the list of the addresses in use.
--
-- Not modelled: the release of the buffers that the handlers, `service` and `parse_message` allocate for
-- themselves. An allocation is taken to succeed.
pub mod Prelude
pub mod Text
pub mod Number
pub mod Result
pub mod Marshall
pub mod Socket
pub mod Server
pub mod Client
pub mod Session
pub mod Connection
pub mod FileService
pub mod Memory
pub mod Network
pub mod Listener
pub mod TcpSample
pub mod Interpose
pub mod Tests
