-- ===== src/Rpc/Pipe.antt =====
-- The pipes of mountd/rpc.c: the table of open pipes, and the requests open, close, write, read and
-- ioctl. A pipe's `dce` is there as long as the pipe is, since the allocations of an open do not
-- fail. `Services` is what the four services do with a request: `State` is their part of a pipe and
-- of its dce (the entries, the union of their requests). A read may set RETURN_READY again, which
-- is a result of it of its own; they set `ioctl_reply_consumed` to false at most, which it is
-- whenever they are called. The close of the handle 2 ^ 32 - 1 frees the pipe and leaves it in the
-- table: it stands there as `freed`, and what a later request makes of the freed memory is not
-- modelled (it goes on as if the memory were there).
pub mod Table
pub mod Wf
pub mod Branches
pub mod Once
pub mod Isolated
pub mod Refused
use ksmbd_tools.Base.{ℕ, ltb, ◌==◌, if◌then◌else◌, ◌||◌, not}
use ksmbd_tools.Base.{Bool, true, false, Option, none, some, List, [], ◌∷◌, length}
use ksmbd_tools.Rpc.Ndr.{Ndr}
use ksmbd_tools.Rpc.Header.{
  Header, RequestHeader, ptype_request, ptype_bind, ptype_altcont, dcerpc_hdr_read,
  dcerpc_request_hdr_read,
}
use ksmbd_tools.Rpc.Bind.{
  BindRequest, Status, bit, dcerpc_parse_bind_req, dssetup_context, dcerpc_bind_return,
}

pub record Command : Type 0 where
  pub handle : ℕ
  pub flags : ℕ
  pub payload : List ℕ

pub record Dce (State : Type 0) : Type 0 where
  pub ndr : Ndr
  pub hdr : Header
  pub req_hdr : RequestHeader
  pub bi_req : BindRequest
  pub dssetup_context_id : Option ℕ
  pub state : State

pub record Pipe (State : Type 0) : Type 0 where
  pub ioctl_reply_consumed : Bool
  pub return_ready : Bool
  pub freed : Bool
  pub dce : Dce State

pub data Service : Type 0 where
  srvsvc wkssvc samr lsarpc : Service

-- `rpc_*_write_request` and `rpc_*_read_request`, which says `payload_sz` of the response where it
-- sets it; and whether it sets RETURN_READY again; the state of a new pipe; and
-- `pipe->entry_processed = NULL`
pub record Services (State : Type 0) : Type 0 where
  pub write_request : Service → Command → Dce State → Status × Dce State
  pub read_request : Service → Command → Dce State → Status × Option ℕ × Bool × Dce State
  pub initial : State
  pub forget_entries : State → State

unfoldable pub service_of : ℕ → Option Service
service_of flags =
    if bit 1 flags
    then some Service.srvsvc
    else if bit 2 flags
    then some Service.wkssvc
    else if bit 10 flags
    then some Service.samr
    else if bit 11 flags
    then some Service.lsarpc
    else none

abbrev pub dcerpc_set_ext_payload : List ℕ → Ndr → Ndr
dcerpc_set_ext_payload payload d = record d { num_pointers = 1; payload = payload; offset = 0 }

abbrev pub is_bind : ℕ → Bool
is_bind ptype = ptype == ptype_bind || ptype == ptype_altcont

abbrev pub is_ok : Status → Bool
is_ok Status.ok = true
is_ok s = false

-- `(unsigned int)-1`
abbrev pub no_pipe : ℕ
no_pipe = 4294967295

-- what a read leaves in the response: its status, its payload, and its size where it is set
pub record Reply : Type 0 where
  pub status : Status
  pub payload : List ℕ
  pub payload_sz : Option ℕ

module _ {State : Type 0} where
  unfoldable pub rpc_pipe_lookup : ℕ → List (ℕ × Pipe State) → Option (Pipe State)
  rpc_pipe_lookup id [] = none
  rpc_pipe_lookup id ((k, p) ∷ t) = if k == id then some p else rpc_pipe_lookup id t

  -- the pipe of `id` as it is after a request
  unfoldable pub set_pipe : ℕ → Pipe State → List (ℕ × Pipe State) → List (ℕ × Pipe State)
  set_pipe id q [] = []
  set_pipe id q ((k, p) ∷ t) = if k == id then (k, q) ∷ t else (k, p) ∷ set_pipe id q t

  -- `g_hash_table_remove`
  unfoldable pub remove_pipe : ℕ → List (ℕ × Pipe State) → List (ℕ × Pipe State)
  remove_pipe id [] = []
  remove_pipe id ((k, p) ∷ t) = if k == id then t else (k, p) ∷ remove_pipe id t

  -- `p` is the pipe of `id`
  unfoldable pub rpc_pipe_free : ℕ → Pipe State → List (ℕ × Pipe State) → List (ℕ × Pipe State)
  rpc_pipe_free id p t =
      if not (id == no_pipe) then remove_pipe id t else set_pipe id (record p { freed = true }) t

module _ {State : Type 0} (services : Services State) where
  -- `rpc_pipe_alloc_bind` and `dcerpc_ext_alloc`, with the payload of the request
  unfoldable pub new_pipe : List ℕ → Pipe State
  new_pipe payload = record {
    ioctl_reply_consumed = false;
    return_ready = false;
    freed = false;
    dce = record {
      ndr = record {
        little_endian = true;
        align4 = true;
        align8 = false;
        ascii_string = false;
        num_pointers = 0;
        offset = 0;
        payload = payload;
      };
      hdr = record {
        rpc_vers = 0;
        rpc_vers_minor = 0;
        ptype = 0;
        pfc_flags = 0;
        packed_drep = 0 ∷ 0 ∷ 0 ∷ 0 ∷ [];
        frag_length = 0;
        auth_length = 0;
        call_id = 0;
      };
      req_hdr = record { alloc_hint = 0; context_id = 0; opnum = 0 };
      bi_req = record {
        flags = 0;
        max_xmit_frag_sz = 0;
        max_recv_frag_sz = 0;
        assoc_group_id = 0;
        num_contexts = 0;
        list = [];
      };
      dssetup_context_id = none;
      state = services.initial;
    };
  }

  unfoldable pub rpc_open_request : Command → List (ℕ × Pipe State) → Status × List (ℕ × Pipe State)
  unfolding new_pipe
  rpc_open_request req t = elim (rpc_pipe_lookup req.handle t) [
    | some p ↦ (Status.exist, t)
    | none ↦ (Status.ok, (req.handle, new_pipe req.payload) ∷ t)
  ]

  unfoldable pub rpc_close_request :
      Command → List (ℕ × Pipe State) → Status × List (ℕ × Pipe State)
  rpc_close_request req t = elim (rpc_pipe_lookup req.handle t) [
    | some p ↦ (Status.ok, rpc_pipe_free req.handle p t)
    | none ↦ (Status.bad_fid, t)
  ]

  -- a parse that has no result would be EBAD_DATA
  unfoldable pub dcerpc_bind_invoke : Command → Dce State → Status × Dce State
  dcerpc_bind_invoke req dce =
      let (r, ndr) = dcerpc_parse_bind_req req.flags dce.bi_req dce.ndr in
      elim r [
        | none ↦ (Status.bad_data, record dce { ndr = ndr })
        | some (good, bi) ↦
            if good
            then (
              Status.ok,
              record dce {
                ndr = ndr;
                bi_req = bi;
                dssetup_context_id = dssetup_context bi.list dce.dssetup_context_id;
                state = services.forget_entries dce.state;
              },
            )
            else (Status.bad_data, record dce { ndr = ndr; bi_req = bi })
      ]

  unfoldable pub request_invoke : Command → Dce State → Status × Dce State
  request_invoke req dce =
      let (r, ndr) = dcerpc_request_hdr_read dce.ndr in
      elim r [
        | none ↦ (Status.bad_data, record dce { ndr = ndr })
        | some h ↦
            let dce' = record dce { ndr = ndr; req_hdr = h } in
            elim (service_of req.flags) [
              | none ↦ (Status.not_implemented, dce')
              | some s ↦ services.write_request s req dce'
            ]
      ]

  -- what a write does with the message
  unfoldable pub invoke : Command → Dce State → Status × Dce State
  unfolding dcerpc_bind_invoke request_invoke
  invoke req dce =
      let (r, ndr) = dcerpc_hdr_read dce.hdr (dcerpc_set_ext_payload req.payload dce.ndr) in
      elim r [
        | none ↦ (Status.bad_data, record dce { ndr = ndr })
        | some (good, hdr) ↦
            let dce' = record dce { ndr = ndr; hdr = hdr } in
            if not good
            then (Status.bad_data, dce')
            else if is_bind hdr.ptype
            then dcerpc_bind_invoke req dce'
            else if not (hdr.ptype == ptype_request)
            then (Status.not_implemented, dce')
            else request_invoke req dce'
      ]

  unfoldable pub rpc_write_request :
      Command → List (ℕ × Pipe State) → Status × List (ℕ × Pipe State)
  unfolding invoke
  rpc_write_request req t = elim (rpc_pipe_lookup req.handle t) [
    | none ↦ (Status.no_memory, t)
    | some p ↦
        let (status, dce) = invoke req p.dce in
        if p.return_ready then (Status.ok, t) else (
          status,
          set_pipe req.handle
              (record p { ioctl_reply_consumed = false; return_ready = true; dce = dce }) t,
        )
  ]

  unfoldable pub bind_reply : Dce State → Reply × Bool × Dce State
  bind_reply dce =
      let (r, ndr) = dcerpc_bind_return dce.hdr dce.bi_req dce.ndr in
      elim r [
        | none ↦ (
          record { status = Status.bad_data; payload = ndr.payload; payload_sz = none },
          false,
          record dce { ndr = ndr },
        )
        | some ((status, hdr, sz), bi) ↦ (
          record { status = status; payload = ndr.payload; payload_sz = sz },
          false,
          record dce { ndr = ndr; hdr = hdr; bi_req = bi },
        )
      ]

  unfoldable pub request_reply : Command → Dce State → Reply × Bool × Dce State
  request_reply req dce = elim (service_of req.flags) [
    | none ↦ (
      record { status = Status.not_implemented; payload = dce.ndr.payload; payload_sz = none },
      false,
      dce,
    )
    | some s ↦
        let (status, sz, again, dce') = services.read_request s req dce in
        (record { status = status; payload = dce'.ndr.payload; payload_sz = sz }, again, dce')
  ]

  -- what a read puts into the response, a buffer of `max_resp_sz` octets, and whether RETURN_READY
  -- is set again
  unfoldable pub answer : Command → List ℕ → Dce State → Reply × Bool × Dce State
  unfolding bind_reply request_reply
  answer req resp dce =
      let dce' = record dce { ndr = dcerpc_set_ext_payload resp dce.ndr } in
      if is_bind dce.hdr.ptype
      then bind_reply dce'
      else if not (dce.hdr.ptype == ptype_request)
      then (
        record { status = Status.not_implemented; payload = resp; payload_sz = none },
        false,
        dce',
      )
      else request_reply req dce'

  abbrev pub nothing : Status → List ℕ → Reply
  nothing status resp = record { status = status; payload = resp; payload_sz = none }

  unfoldable pub rpc_read_request :
      Command → List ℕ → List (ℕ × Pipe State) → Reply × List (ℕ × Pipe State)
  unfolding answer
  rpc_read_request req resp t = elim (rpc_pipe_lookup req.handle t) [
    | none ↦ (nothing Status.bad_fid resp, t)
    | some p ↦
        let (reply, again, dce) = answer req resp p.dce in
        if p.ioctl_reply_consumed
        then (nothing Status.ok resp, set_pipe req.handle (record p { return_ready = false }) t)
        else if not p.return_ready
        then (nothing Status.ok resp, t)
        else (reply, set_pipe req.handle (record p { return_ready = again; dce = dce }) t)
  ]

  -- FSCTL_NAMED_PIPE_READ_WRITE
  abbrev pub consumed : Pipe State → Pipe State
  consumed p = record p { ioctl_reply_consumed = true; return_ready = false }

  abbrev pub consume : ℕ → Reply × List (ℕ × Pipe State) → Reply × List (ℕ × Pipe State)
  consume id (reply, t) =
      if is_ok reply.status
      then elim (rpc_pipe_lookup id t) [
        | none ↦ (reply, t)
        | some p ↦ (reply, set_pipe id (consumed p) t)
      ]
      else (reply, t)

  -- the read of an ioctl, behind its write
  abbrev pub ioctl_read :
      Command → List ℕ → Status × List (ℕ × Pipe State) → Reply × List (ℕ × Pipe State)
  ioctl_read req resp (status, t) =
      if is_ok status
      then consume req.handle (rpc_read_request req resp t)
      else (nothing status resp, t)

  unfoldable pub rpc_ioctl_request :
      Command → List ℕ → List (ℕ × Pipe State) → Reply × List (ℕ × Pipe State)
  unfolding rpc_write_request rpc_read_request
  rpc_ioctl_request req resp t =
      if ltb (length req.payload) 16
      then (nothing Status.bad_data resp, t)
      else elim (rpc_pipe_lookup req.handle t) [
        | none ↦ (nothing Status.bad_fid resp, t)
        | some p ↦ ioctl_read req resp (rpc_write_request req t)
      ]
