-- ===== src/Lib.antt =====
-- A verification of the core of the HTTP proxy under http/, an application firewall that takes
-- requests apart, undoes their encodings and matches them against rules.
--
-- The parts and their files:
-- Prelude (Tests, Lists, Int): tests on numbers, the option monad of faults, lists with native
--   indices, integers.
-- Scan (Match): `s_http_parse` of http/http.c, the search for the end of a header. The state is
--   `local->state`; the functions have the names of the source.
-- Decode: http/http_decode.c. Digit has the hexadecimal digits and the comparison without case;
--   Percent has `_http_string_decode` and its callees, with Bounds, Stray and RoundTrip for proofs;
--   Escape has `_http_escape_decode_inplace` and Html `_http_html_entities_decode_inplace`, with
--   Bounds and RoundTrip for proofs. Full has `http_decode_string`, which calls these three.
--   Path has `http_decode_path`: Segments says what the names of a path mean, Rounds is about a
--   round of the loop, Resolve and Canonical about the result.
-- ConnTable: http/connection.c, the table of connections of a thread. `alloc`, `add`, `find`
--   and `del` are `connection_table_alloc` and so on; `get_free_id` is `_st_get_free_id`. Count is
--   about the free entries, Search about the loop, Ops about the operations.
-- PacketQueue: http/packet.c over a heap of `next` pointers; Chain is about linked lists in the
--   heap, Ops about the operations.
-- IpAddr: http/ip_addr.c over the bytes of an address. Cidr is about lengths of masks, Mask about
--   `ip_addr_apply_mask`, Network about `ip_mask_match`, Compare about conversion and
--   comparison; Order has `ip_mask_t` and `ip_port_t` with their comparisons.
-- RingQueue (Order, Ops): http/queue.c, the queue between threads. Order is about the slots, Ops
--   about the operations.
-- Text (Search, Find, Strip): the string helpers of http/http_basic.c; Search is about `strlstr`, Find
--   about it with a pattern of one byte, Strip about `strlstrip`.
-- Body: http/http_body.c, a body in chunks. Line is about `http_read_line`, Stream about
--   `recv_chunk` and a byte by byte reading of the stream, Message about whole messages.
-- Head: the loop of `http_parse_head` in http/http.c with the states of http/http_table.c, as the calls
--   of `http_parse_line` that it makes. Lines is about well-formed heads, Bounds about any.
-- Fields (Rows, Search, Methods): the tables of http/http_header.c and http/http_table.c. A row is found by
--   its place in memory; Rows is about filling a table, Search about looking a name up.
-- Message: `http_t` of http/http.h, the strings of http/http_basic.c and the accessors of
--   http/http_api.c. Append is about strings, Access about accessors, Decoded about `http_set_str`
--   together with Decode/Full.
-- Args (Words, Pairs): http/http_arg.c, the arguments of a URL or a body. `cur` is the last entry in
--   use. Words is about the rounds of the loop, Pairs about whole queries.
-- Parse: http/http_header.c and the rest of `http_parse_head`. Info is the part of `http_t` that the
--   lines of a head change; Parse has the parsers of plain fields, Auth, Content and Counts the
--   others, Line `http_parse_line` and what it calls. Pointers, Field, Request, Response, Separators,
--   Types, Boundary and Head are proofs: about pointers into a buffer, a line with a field, the first
--   line of a request and of a response, the counts, the type of the content, the boundary of a form,
--   and a whole head.
-- Form (Header, Label): http/http_form.c, the states of `http_parse_form` in front of a part and in its
--   header. Header is about headers of well-formed lines, Label about the label.
-- Mempool: http/mempool.c, a pool of memory units. Chains and Cuts are about its linked lists, Regions
--   about the nodes of a cache and their counts, Invariant says when a pool is well formed, Caches is
--   about `_op_alloc_cache`, Get about `mempool_get`, Removal and Release about `_op_free_cache`, Put
--   about `_op_put_node`, and Runs about runs of a pool. Addresses are numbers, and `malloc` gives
--   addresses that it has not given before.
-- Tests: runs at small inputs, and each theorem at an input that meets its hypotheses.
--
-- A byte is a number, a C string or buffer the list of its bytes. `none` in the result of a
-- function of pointers or indices is an access outside an object, or a loop that ran through its
-- fuel. The loop of `_st_get_free_id` has fuel for twice the table and one round more, since it
-- visits each entry once before it goes round the end and once behind; the loop that combines
-- percent signs has the length of its string, which every round shortens, and the loops over escapes,
-- entities and paths the length and one or two more. The theorems show that none of them runs out.
--
-- Threads, sockets, databases and the pattern matcher, a copy of a library, are not modelled: they
-- are input and output or foreign code. The text forms of addresses, the bodies of
-- the parts of a form, and the rewriting of messages are not modelled. The number that `strtol` reads from a line of a body is a parameter, a function of the bytes of the
-- line, and so is the one that it reads from an HTML entity. What `http_decode_string` makes of a
-- text is a parameter of `set_str`, which Message/Decoded gives.
pub mod Args
pub mod Body
pub mod ConnTable
pub mod Decode
pub mod Fields
pub mod Form
pub mod Head
pub mod IpAddr
pub mod Mempool
pub mod Message
pub mod PacketQueue
pub mod Parse
pub mod Prelude
pub mod RingQueue
pub mod Scan
pub mod Tests
pub mod Text
