-- ===== src/Rpc/Header/Response.antt =====
-- The headers that `dcerpc_write_headers` of mountd/rpc.c puts in front of a response.
use ksmbd_tools.Rpc.Ndr.{Ndr}
use ksmbd_tools.Rpc.Ndr.Writes.{Writes}
use ksmbd_tools.Rpc.Header.{Header}
