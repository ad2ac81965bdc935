-- ===== src/Rpc/Tests.antt =====
-- Concrete messages, pipes and services for mountd/rpc.c, and the theorems at them.
use ksmbd_tools.Base.{
  ℕ, ◌≡◌, ◌≢◌, refl, arith, true, false, some, none, List, [], ◌∷◌, replicate, All,
}
use ksmbd_tools.Rpc.Ndr.{Ndr, ndr_read_int, ndr_read_bytes, fetch, le_value, be_value}
use ksmbd_tools.Rpc.Ndr.Writes.{Agrees, at}
use ksmbd_tools.Rpc.Header.{Header, dcerpc_hdr_write, dcerpc_hdr_read, dcerpc_request_hdr_read}
use ksmbd_tools.Rpc.Header.{RequestHeader}
use ksmbd_tools.Rpc.Header.RoundTrip.{WfHeader, dcerpc_hdr_read-dcerpc_hdr_write}
use ksmbd_tools.Rpc.Syntax.{
  ndr_syntax, zero_syntax, read_syntax, write_syntax, chosen, dcerpc_syntax_supported, supported_in,
  dcerpc_syntax_same,
}
use ksmbd_tools.Rpc.Bind.{BindRequest, Status, acknowledged, dcerpc_parse_bind_req}
use ksmbd_tools.Rpc.Syntax.RoundTrip.{WfSyntax, read_syntax-write_syntax}
use ksmbd_tools.Rpc.Bind.Parse.{Left, Returns-dcerpc_parse_bind_req}
use ksmbd_tools.Rpc.Bind.Nack.{nack_header}
use ksmbd_tools.Rpc.Ndr.Ends.{Holds}
use ksmbd_tools.Rpc.Pipe.{
  Pipe, Command, Services, nothing, rpc_pipe_lookup, set_pipe, invoke, answer, request_invoke,
  request_reply, service_of, rpc_write_request, new_pipe, is_ok, rpc_open_request,
  rpc_close_request, rpc_read_request, rpc_ioctl_request, dcerpc_set_ext_payload,
}
use ksmbd_tools.Rpc.Pipe.Wf.{WfPipes}
use ksmbd_tools.Rpc.Pipe.Isolated.{
  Request, read_pipe, write_pipe, close_pipe, handle_of, serve_all, serve_all-WfPipes,
}
use ksmbd_tools.Rpc.Pipe.Once.{answer-last, nothing-rpc_read_request, nothing-rpc_ioctl_request}
use ksmbd_tools.Rpc.Pipe.Refused.{rpc_close_request-rpc_open_request, rpc_read_request-nack}

abbrev ndr : ℕ → Ndr
ndr n = record {
  little_endian = true;
  align4 = true;
  align8 = false;
  ascii_string = false;
  num_pointers = 1;
  offset = 0;
  payload = replicate n 7;
}

abbrev header : Header
header = record {
  rpc_vers = 5;
  rpc_vers_minor = 0;
  ptype = 11;
  pfc_flags = 3;
  packed_drep = 16 ∷ 0 ∷ 0 ∷ 0 ∷ [];
  frag_length = 72;
  auth_length = 0;
  call_id = 2;
}

header-WfHeader : WfHeader true header
header-WfHeader = record {
  rpc_vers_fits = refl;
  rpc_vers_minor_fits = refl;
  ptype_fits = refl;
  pfc_flags_fits = refl;
  drep_size = refl;
  drep_order = refl;
  frag_length_fits = refl;
  auth_length_fits = refl;
  call_id_fits = refl;
}

abbrev bind : BindRequest
bind = record {
  flags = 2;
  max_xmit_frag_sz = 4280;
  max_recv_frag_sz = 4280;
  assoc_group_id = 0;
  num_contexts = 1;
  list =
      record {
        id = 0;
        num_syntaxes = 1;
        abstract_syntax = zero_syntax;
        transfer_syntaxes = zero_syntax ∷ [];
      }
      ∷ [];
}

unsupported : acknowledged bind.list ≡ false
unfolding acknowledged chosen dcerpc_syntax_supported supported_in dcerpc_syntax_same
unsupported = refl

ndr_syntax-WfSyntax : WfSyntax ndr_syntax
ndr_syntax-WfSyntax = omega arith

dcerpc_hdr_read-dcerpc_hdr_write_example :
    (p : List ℕ) × (dcerpc_hdr_write header (ndr 20) ≡ (some tt, at (ndr 20) 16 p))
    × Agrees 0 p (replicate 20 7)
    × (dcerpc_hdr_read (nack_header header) (at (ndr 20) 0 p)
        ≡ (some (true, header), at (ndr 20) 16 p))
dcerpc_hdr_read-dcerpc_hdr_write_example =
    dcerpc_hdr_read-dcerpc_hdr_write true header (nack_header header) (ndr 20) header-WfHeader
      (refl, refl, refl) refl (omega arith) (omega arith)

read_syntax-write_syntax_example :
    (p : List ℕ) × (write_syntax ndr_syntax (ndr 30) ≡ (some tt, at (ndr 30) 20 p))
    × Agrees 0 p (replicate 30 7)
    × (read_syntax (at (ndr 30) 0 p) ≡ (some ndr_syntax, at (ndr 30) 20 p))
read_syntax-write_syntax_example =
    read_syntax-write_syntax true ndr_syntax (ndr 30) ndr_syntax-WfSyntax (refl, refl, refl) refl
      (omega arith) (omega arith)

Returns-dcerpc_parse_bind_req_example :
    Holds ⊥ (Left 2 bind) (dcerpc_parse_bind_req 2 bind (ndr 40)).0
Returns-dcerpc_parse_bind_req_example = Returns-dcerpc_parse_bind_req 2 bind (ndr 40)

-- services that take every request, and answer it with 4 octets
abbrev echo : Services (Unit {0})
echo = record {
  write_request = λ s c d. (Status.ok, d);
  read_request = λ s c d. (Status.ok, some 4, false, d);
  initial = tt;
  forget_entries = λ u. u;
}

abbrev command : ℕ → List ℕ → Command
command id payload = record { handle = id; flags = 2; payload = payload }

abbrev waiting : Pipe (Unit {0})
waiting = record {
  ioctl_reply_consumed = false;
  return_ready = true;
  freed = false;
  dce = record {
    ndr = ndr 40;
    hdr = header;
    req_hdr = record { alloc_hint = 0; context_id = 0; opnum = 0 };
    bi_req = bind;
    dssetup_context_id = none;
    state = tt;
  };
}

abbrev pipes : List (ℕ × Pipe (Unit {0}))
pipes = (3, waiting) ∷ (5, new_pipe echo []) ∷ []

found : rpc_pipe_lookup 3 pipes ≡ some waiting
unfolding rpc_pipe_lookup
found = refl

free : rpc_pipe_lookup 4 pipes ≡ none
unfolding rpc_pipe_lookup
free = refl

pipes-WfPipes : WfPipes pipes
unfolding rpc_pipe_lookup new_pipe
pipes-WfPipes = (refl, refl, λ h. cc, (refl, refl, λ h. refl, tt))

rpc_close_request-rpc_open_request_example :
    (rpc_open_request echo (command 4 []) pipes ≡ (Status.ok, (4, new_pipe echo []) ∷ pipes))
    × (rpc_open_request echo (command 4 (1 ∷ [])) ((4, new_pipe echo []) ∷ pipes)
        ≡ (Status.exist, (4, new_pipe echo []) ∷ pipes))
    × (rpc_close_request echo (command 4 (1 ∷ [])) ((4, new_pipe echo []) ∷ pipes)
        ≡ (Status.ok, pipes))
rpc_close_request-rpc_open_request_example =
    rpc_close_request-rpc_open_request echo (command 4 []) (command 4 (1 ∷ [])) pipes free refl

abbrev requests : List Request
requests = write_pipe (command 3 []) ∷ close_pipe (command 5 []) ∷ []

serve_all-WfPipes_example :
    WfPipes (serve_all echo requests pipes)
    × ((i : ℕ)
        → All (λ r. i ≢ handle_of r) requests
        → rpc_pipe_lookup i (serve_all echo requests pipes) ≡ rpc_pipe_lookup i pipes)
serve_all-WfPipes_example =
    serve_all-WfPipes echo requests pipes (tt, (λ h. omega arith, tt)) pipes-WfPipes

nothing-rpc_read_request_example :
    (rpc_read_request echo (command 3 []) (9 ∷ []) (
      serve_all echo
        (read_pipe (command 5 []) [] ∷ [])
        (rpc_read_request echo (command 3 []) (replicate 40 0) pipes).1)).0
    ≡ nothing echo Status.ok (9 ∷ [])
nothing-rpc_read_request_example =
    nothing-rpc_read_request echo (command 3 []) (command 3 []) (replicate 40 0) (9 ∷ [])
      (read_pipe (command 5 []) [] ∷ []) pipes waiting found
      (answer-last echo (command 3 []) (replicate 40 0) waiting.dce refl) refl (tt, tt)

rpc_read_request-nack_example :
    (payload : List ℕ) × ((rpc_read_request echo (command 3 []) (replicate 40 0) pipes).0
      ≡ record { status = Status.ok; payload = payload; payload_sz = some 24 })
    × (dcerpc_hdr_read header (at (dcerpc_set_ext_payload (replicate 40 0) (ndr 40)) 0 payload) ≡ (
      some (true, nack_header header),
      at (dcerpc_set_ext_payload (replicate 40 0) (ndr 40)) 16 payload,
    ))
rpc_read_request-nack_example =
    rpc_read_request-nack echo true (command 3 []) (replicate 40 0) pipes waiting header found refl
      refl refl unsupported header-WfHeader (refl, refl, refl) (omega arith) (omega arith)

-- a request of 24 octets
abbrev message : List ℕ
message =
    5 ∷ 0 ∷ 0 ∷ 3 ∷ 16 ∷ 0 ∷ 0 ∷ 0 ∷ 24 ∷ 0 ∷ 0 ∷ 0 ∷ 1 ∷ 0 ∷ 0 ∷ 0 ∷ 0 ∷ 0 ∷ 0 ∷ 0 ∷ 0 ∷ 0 ∷ 1 ∷ 0
    ∷ []

taken :
    is_ok (rpc_ioctl_request echo (command 5 message) (0 ∷ 0 ∷ 0 ∷ 0 ∷ []) pipes).0.status ≡ true
unfolding rpc_ioctl_request rpc_pipe_lookup rpc_write_request rpc_read_request set_pipe invoke
    answer new_pipe dcerpc_hdr_read ndr_read_int ndr_read_bytes fetch le_value be_value
    dcerpc_request_hdr_read request_invoke request_reply service_of
taken = refl

nothing-rpc_ioctl_request_example :
    (rpc_read_request echo (command 5 []) (9 ∷ []) (
      serve_all echo
        (read_pipe (command 3 []) [] ∷ [])
        (rpc_ioctl_request echo (command 5 message) (0 ∷ 0 ∷ 0 ∷ 0 ∷ []) pipes).1)).0
    ≡ nothing echo Status.ok (9 ∷ [])
nothing-rpc_ioctl_request_example =
    nothing-rpc_ioctl_request echo (command 5 message) (command 5 []) (0 ∷ 0 ∷ 0 ∷ 0 ∷ []) (9 ∷ [])
      (read_pipe (command 3 []) [] ∷ []) pipes taken refl (tt, tt)

abbrev request_header : RequestHeader
request_header = record { alloc_hint = 0; context_id = 1; opnum = 15 }
