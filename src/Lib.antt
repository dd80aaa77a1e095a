-- ===== src/Lib.antt =====
-- evcoap, the CoAP library of the bridge (bridge/sw/lib/evcoap/src, headers in bridge/sw/include).
--
-- A message is a header of 4 bytes, a pool of options and a payload. The pool (evcoap_opt.c) is a list
-- sorted by symbol, filled by typed adders, each of which may split a value over several options, and
-- read by typed getters. The encoder turns it into bytes, each option with the difference of its number
-- to the one before, and bridges large differences by empty options, the fenceposts; the decoder reads
-- the pool back. The header (evcoap_pdu.c) announces how many options follow, fenceposts included. A
-- flow (evcoap_flow.c) keeps the token that ties a response to its request. A server hosts resources
-- (evcoap_resource.c), each with representations told apart by media type and ETag. Received messages
-- are recorded by MID and peer (evcoap_base.c), so that a copy is answered from the record. A request
-- starts a server transaction (evcoap_srv.c): the user's function answers at once, or asks for time, in
-- which case the request is acknowledged and the response goes out on its own, again and again until it
-- is acknowledged. A client transaction (evcoap_cli.c) sends a request, waits for the acknowledgement and
-- the response, and goes on to wait for notifications where it observes. Both are state machines over
-- the timers of evcoap_timer.c; an invalid transition ends the process. The server remembers who observes
-- a resource (evcoap_observe.c), until the peer resets a notification or asks again. Users reach all of
-- this through evcoap.c, and may keep their resources in a file system (evcoap_filesys.c), whose links
-- answer a GET of /.well-known/core. The cache of the bridge (bridge/sw/lib/kache/src) keeps responses of
-- clients for their Max-Age.
--
-- The files, and the code each is about:
--   Common        the shared names, results, lists and Boolean tests
--   Enums         evcoap_enums.c and evcoap_enums.h: codes, masks, names of states
--   Opt           evcoap_opt.h, the tables of evcoap_opt.c, and the children:
--     Table       g_opts and ec_opt_num2sym
--     Pool        ec_opt_new, ec_opts_push, ec_opts_add, ec_opts_add_raw, ec_opts_get_nth
--     Uint        ec_opt_encode_uint and ec_opt_decode_uint, in both builds
--     Add, Get    the typed adders and getters
--     Encode      ec_opts_encode and the fenceposts
--     Decode      ec_opts_decode
--   Pdu           the header and the responses of evcoap_pdu.c
--   Flow          evcoap_flow.c
--   Config        the block size of evcoap_base.c
--   Resource      evcoap_resource.c, and the child:
--     Link        ec_res_link_format_str and __q_match
--   Filesys       evcoap_filesys.c
--   Dups          ec_dups_* and ec_recvd_pdu_* of evcoap_base.c
--   Timer         evcoap_timer.c
--   Srv           the states and timers of evcoap_srv.c, and the children:
--     Send        ec_server_send_resp, ec_server_send_separate_ack, ec_server_reply, ec_server_ready
--     Drive       the user's function, the two timers, the wake-up and empty messages
--     Lookup      ec_servers_lookup, the acceptance of a request, and the events of a transaction
--     Input       ec_server_handle_pdu, over all transactions and observations
--   Cli           the states and timers of evcoap_cli.c, and the children:
--     Drive       ec_client_set_state, the three timers, ec_client_handle_empty_pdu
--     Input       ec_client_handle_observation and ec_client_handle_pdu
--     Start       ec_client_go, ec_client_dns_cb, ec_client_register and the encoding of a request
--   Observe       the observers of evcoap_observe.c, and the children:
--     Ops         ec_add_observer, ec_rem_observer and the two ways of cancelling
--     Notify      ec_ob_cb, which sends the notifications
--   Api           evcoap.c, in the children:
--     Blocks      Block options and block sizes
--     Request     what goes into a request, and what a server reads of it
--     Response    what goes into a response, and what a client reads of it
--     Registry    the functions of the user
--   Kache         kache.c, and the children:
--     Content     the media types of the cache
--     Objects     kache_obj.c
--     Evcoap      kache_evcoap.c
--   Tests         concrete pools, messages, resources, transactions and observers
-- A function ec_X of the source is X here, with its arguments in the same order (ec_observer_new of
-- evcoap.c is new_observer), and kache_X of kache_obj.c and kache_evcoap.c is X; children that are named for what they prove hold lemmas.
--
-- State is a record that an operation takes and returns. A return of -1 or NULL is `err` with the
-- state it leaves, or `none`; `fault` is an access outside of a buffer. The list `v` at a pointer
-- holds the bytes that may be read there. Integers are natural numbers; the places where the source
-- narrows to a byte or wraps an unsigned difference are written out. The loops recurse on the lists or
-- on a count that the source computes (the option count for the decoder, the distance for the
-- fenceposts), so there is no fuel to run out. A step of a transaction is a `Run`: it returns 0
-- (`done`) or -1 (`failed`), with the transaction, or ends the process (`ended`), by errx or by an
-- invalid access. The transactions of the server are steps of a relation, one for each event that can
-- come. The cache holds the addresses of its objects and representations, and the detection of duplicates
-- those of its records; what is given back is marked, and an access to it is a fault. Memory is taken to be available. Byte order of the host, random bytes, the u_strlcpy and the
-- hash map of libu, the text of a key, what libevent refuses, what the resolver finds, what the network carries, what the
-- duplicate detection says of a message, the numbers and sizes of socket addresses and the answers of
-- the user's functions are parameters.
--
-- Not modelled: URIs (u_uri_t of libu) and all that composes or stores them; sockets and the loop of
-- libevent; the resolver; the histories of the cache (kache_history.c), which do not
-- compile; the service under bridge/sw/lib/pubapi and the proxy.
pub mod Common
pub mod Enums
pub mod Opt
pub mod Pdu
pub mod Flow
pub mod Config
pub mod Resource
pub mod Filesys
pub mod Dups
pub mod Timer
pub mod Srv
pub mod Cli
pub mod Observe
pub mod Api
pub mod Kache
pub mod Tests
