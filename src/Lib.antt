-- ===== src/Lib.antt =====
-- The VANTIQ Micro Edition library (src/vme): a client in C for the REST interface of a VANTIQ server,
-- on top of libcurl. An application opens a session with a URL and a token, names resources, selects,
-- inserts, updates, deletes, publishes and executes, and frees each result.
--
-- The parts, from the bottom up, and the files that model them:
--   - Base: numbers, lists, texts and tests that all parts share.
--   - Memory: the C run-time. A call is a function of the world: the number of live blocks, how many
--     more requests the allocator grants, what a fresh block holds, the level of the log, the calls
--     made of the application, and the number of open sockets. It returns, fails an assertion, is refused
--     memory without looking, or leaves its memory. The third is where the code goes on with a NULL
--     pointer: the model stops there, and no theorem takes it for a good end. Memory/Returns is total
--     correctness of a call; Memory/Safe allows an assertion to fail besides, for an allocator that refuses.
--   - Buf: the growing buffer of src/vme/buf.c (vmebuf_ensure_size, vmebuf_push, vmebuf_concat, ...),
--     one function for each of its functions. Buf/Growth has its invariant, Buf/Contents its
--     contents, Buf/Safety what an allocator that refuses can do to it.
--   - Number: what `%d` prints and `atoi` reads.
--   - Resource: the system types and build_rsuri of src/vme/utils.c.
--   - Curl: libcurl, which is not in the repository, as a parameter.
--   - Client: src/vme/vantiq_client.c and src/vme/vantiq_client.h. Client/Params and Client/Url are the
--     parameters and URLs, Client/Callbacks the three callbacks, Client/Transfer a transfer and
--     prepare_result, Client/Request the functions vc_get, vc_post and their kin, Client/Session
--     vc_init and vc_teardown. Client/Transfer/Exchange is the abstract specification of a transfer,
--     Client/Transfer/Refines and Client/Request/Done the refinement.
--   - Log: the level of src/vme/log.c. Config: src/vme/config.c. Config/Keys is what a key sets,
--     Config/Assigned what a setting stores and costs, Config/Total any file, Config/RoundTrip the lines
--     of printed settings, Config/Printed the file of them, Config/Comments its comments.
--   - Dpi: src/vipo/dpi_client.c. Dpi/Connect opens a socket on a network that is a parameter; Dpi
--     itself is fetch_discovery_msg, on what arrives. Dpi/Pieces and Dpi/Stream are its loop, Dpi/Concluded
--     what it makes of the bytes taken, Dpi/Message what it returns, Dpi/End its end mark. Vipo: main of src/vipo/vipo.c, which publishes a message
--     of Dpi with the entry points of Api. Vipo/Publish is the publishing, Vipo/Main a whole run, from
--     the settings over the socket and the session to what is left.
--   - Api: the entry points of src/vme/vme.c, in Api/Query, Api/Modify and Api/Invoke, with the guards
--     in Api/Guard and the life of a handle in Api/Lifetime. Api/Calls are the entry points as data, so
--     that sequences of calls and whole sessions can be stated: Api/Calls/Sequence, Session, Rejected and
--     Unopened, for a login that is refused.
--   - Tests: the theorems at concrete inputs.
--
-- How the code corresponds to the model. A function keeps its name; a leading underscore is written out
-- (`_putorpost` is put_or_post, `_select` is select_with), and vmebuf_x is x of Buf. A pointer that may
-- be NULL is an Option. A struct that is changed through a pointer is taken and given back. Every
-- malloc, strdup and realloc of a NULL pointer adds a live block, every free takes one away. What is in
-- a block is given with the bytes of the block.
--
-- libcurl is a record of functions. What a transfer does is a finite dialogue: libcurl makes callbacks
-- in an order of its own and goes on by what they return, depending on the options set and on all
-- transfers before. The theorems on requests hold for every such dialogue that keeps to the bounds
-- named: sizes far below 2 ^ 64, and count headers that show an `int` and fit their buffer. The
-- blocks of libcurl's own (the handle, the header list) are not counted; a text of curl_easy_escape is.
--
-- Bounds and fuel. size_t has 64 bits and wraps; the buffer's size and the sizes passed by libcurl keep
-- the wrap-around. `int` has 32 bits. decimal has one unit of fuel more than the number counts, which
-- is enough, since a number has no more digits; parse_lines has the file's length, which is enough,
-- since every round reads a byte, and receive_all one more than the bytes that arrive. The theorems
-- that say that a call returns take an allocator that grants every request; the definitions take any, and
-- Buf/Safety is about any. The `int` that counts the lines of a file faults where it would overflow, and
-- the `int` that build_rsuri computes fails its assertion from 2 ^ 31 on. The room of a `sun_path`, 108
-- bytes, is that of Linux.
--
-- Freed memory. vmebuf_dealloc gives back a buffer without cells, which the callers use from there on, so
-- that reading or writing a buffer that was given back is a fault. The `readptr` of a client is the rest
-- of the message by value: that it still leads there once the message is given back is not tracked, and
-- what the theorems say of it after a call is about the bytes, not about the block. A request
-- that sends sets it anew first.
--
-- Not modelled: src/vme/cjson.c, a copy of another project's library that nothing here calls; the
-- logger in src/vme/log.c, a copy too, and the messages that the other files write to it; the tests in
-- src/vmeTest; and src/vipo/log.c, which only prints. Bytes from 128 on
-- are not negative, as they may be for a `char`.
pub mod Base
pub mod Memory
pub mod Buf
pub mod Number
pub mod Resource
pub mod Curl
pub mod Client
pub mod Log
pub mod Config
pub mod Dpi
pub mod Api
pub mod Vipo
pub mod Tests
