-- ===== src/Lib.antt =====
-- ksmbd-tools is the user-space half of the ksmbd file server. The kernel asks its daemon, by one
-- message each, who a user is, what a share is, whether a client may connect to a share, and to
-- negotiate Kerberos over SPNEGO. This library models the parts that answer, and proves what makes
-- the answers right.
--
-- The parts and their files
--   Base       what the modules share: tests on numbers, lists over native numbers, C strings, and
--              the hash tables of GLib as association lists (Base/Tests, Base/Lists, Base/Table).
--   Asn1       tools/asn1.c. A decoder takes a context (the offset of `pointer`, the octets up to
--              `end`) and returns what it stores, or `none` for 0, with the context it leaves; the
--              functions have their names in C. Asn1/HeaderForm, HeaderRead, HeaderRoundTrip and
--              OidRoundTrip are about round trips, Tlv about lengths, Within and Bounds about the
--              buffer.
--   Spnego     tools/management/spnego.c: `decode_neg_token_init` and `encode_neg_token_targ`, over
--              Asn1. Spnego/Encode is about the answer that is written.
--   User       tools/management/user.c: the table of users and their references; User/Login and
--              User/Logout have the requests of the kernel, User/Login/Refine what a login answers. User/Groups
--              is the request for groups, from mountd/worker.c and mountd/ipc.c to the user.
--   Share      tools/management/share.c: the table of shares, references and connections, and the
--              payload of a share's configuration; Share/Hosts has `match_host_cidr` and
--              `shm_lookup_hosts_map`, Share/Hosts/Listed what its answers mean. A share lets its users go when it is freed, so it calls User.
--   Session    tools/management/session.c: `World` is the state of all the tables, since a
--              session that ends frees its tree connections, which close shares and put users.
--              Session/Wf is the invariant, Session/Steps what the operations do under it,
--              Session/Capacity and Session/RoundTrip what follows.
--   TreeConn   tools/management/tree_conn.c: `tcm_handle_tree_connect` calls all of the above. The
--              stages between its `goto`s are functions into `Jump`, and `land` is the two labels.
--              TreeConn/Policy is the specification (with the allowed hosts before the denied ones, as
--              in the code and against ksmbd.conf.5.in), Admitted, Answer and Refine the refinement, Granted what
--              a granted connect means, Refusal and Released what a refused one gives back.
--   Rpc        mountd/rpc.c. Rpc/Ndr has the NDR routines as actions on the dce's buffer: `none` is a
--              failure, and the state stays as far as it came. Its children say what sequences of them
--              do: Writes where a write ends and what it leaves alone, RoundTrip that a read gets back
--              what a write put, Ends what is returned. Rpc/Header has the headers of a message,
--              Rpc/Syntax the syntaxes of interfaces, Rpc/Bind the bind and its answers, Rpc/Pipe the
--              table of pipes and their requests, with the four services as the record `Services`;
--              a pipe that is freed and left in the table is marked, and what becomes of it is not modelled;
--              Pipe/Wf is the invariant of the table, Pipe/Isolated, Once
--              and Refused are about sequences of requests.
--   Smbacl     mountd/smbacl.c over Rpc/Ndr: security identifiers (RoundTrip, Compare) and security
--              descriptors (Ace, Dacl, Descriptor).
--   Md4        adduser/md4_hash.c: the context with its buffer of one block. Md4/Blocks compresses a
--              message without a buffer, Md4/Stream is about updates, Md4/Digest about the padding.
--   The modules named Tests hold concrete tables and octets, and the theorems at them.
--
-- State and numbers
--   A pointer into a table is the key of its entry. `unsigned int` and `unsigned long` wrap at
--   2 ^ 32 and 2 ^ 64; a reference counter is a pattern of 32 bits. `sessions_cap` is positive
--   once the configuration is read and is taken from only where it is positive, and so is a natural
--   number. The locks are not modelled: an operation runs from its begin to its end.
--   There is no fuel: the loops of the decoders are recursions on the octets that are left, on a
--   count, or, for `asn1_oid_decode`, on the room that is left in its array, which the loop tests.
--
-- Parameters
--   `try_malloc` tells which allocations GLib grants in tools/asn1.c, tools/management/spnego.c and
--   mountd/ipc.c;
--   the tables' own small allocations, and those of a pipe, do not fail. `Accounts` holds getpwnam,
--   getgrouplist, and
--   GLib's base64 and UTF-8 routines; `Libc` strtol and inet_pton; `fold` is the case folding of a
--   share's name.
--
-- Not modelled
--   The RPC services (mountd/rpc_*.c), the strings and arrays of mountd/rpc.c, on which only they
--   call, and its rpc_state_request, which measures an answer by making it; the dispatch of
--   messages but for the request for groups (mountd/worker.c, mountd/ipc.c), the configuration parser and the reading of a share from it
--   (tools/config_parser.c, `process_share_conf_kv`), adduser and addshare. The daemon's process, the
--   control tool and the logging are I/O. third_party/picotls is a copy of another project. The
--   mechanisms of Kerberos are calls of its library.
pub mod Base
pub mod Asn1
pub mod Spnego
pub mod User
pub mod Share
pub mod Session
pub mod TreeConn
pub mod Md4
pub mod Rpc
pub mod Smbacl
