-- ===== src/Protocol/Ops.antt =====
-- nfsv4/nfs4xdr.h, `enum nfs_opnum4`, and the sizes and enumerators that the client uses.
use ssqlite.Prelude.{ℕ}

-- The operations of NFSv4.0, 4.1 and 4.2.
pub data OpNum : Type 0 where
  op_access op_close op_commit op_create op_delegpurge op_delegreturn op_getattr op_getfh : OpNum
  op_link op_lock op_lockt op_locku op_lookup op_lookupp op_nverify op_open op_openattr : OpNum
  op_open_confirm op_open_downgrade op_putfh op_putpubfh op_putrootfh op_read op_readdir : OpNum
  op_readlink op_remove op_rename op_renew op_restorefh op_savefh op_secinfo op_setattr : OpNum
  op_setclientid op_setclientid_confirm op_verify op_write op_release_lockowner : OpNum
  op_backchannel_ctl op_bind_conn_to_session op_exchange_id op_create_session : OpNum
  op_destroy_session op_free_stateid op_get_dir_delegation op_getdeviceinfo op_getdevicelist : OpNum
  op_layoutcommit op_layoutget op_layoutreturn op_secinfo_no_name op_sequence op_set_ssv : OpNum
  op_test_stateid op_want_delegation op_destroy_clientid op_reclaim_complete op_allocate : OpNum
  op_copy op_copy_notify op_deallocate op_io_advise op_layouterror op_layoutstats : OpNum
  op_offload_cancel op_offload_status op_read_plus op_seek op_write_same op_clone op_illegal : OpNum

unfoldable pub opcode : OpNum → ℕ
opcode op_access = 3
opcode op_close = 4
opcode op_commit = 5
opcode op_create = 6
opcode op_delegpurge = 7
opcode op_delegreturn = 8
opcode op_getattr = 9
opcode op_getfh = 10
opcode op_link = 11
opcode op_lock = 12
opcode op_lockt = 13
opcode op_locku = 14
opcode op_lookup = 15
opcode op_lookupp = 16
opcode op_nverify = 17
opcode op_open = 18
opcode op_openattr = 19
opcode op_open_confirm = 20
opcode op_open_downgrade = 21
opcode op_putfh = 22
opcode op_putpubfh = 23
opcode op_putrootfh = 24
opcode op_read = 25
opcode op_readdir = 26
opcode op_readlink = 27
opcode op_remove = 28
opcode op_rename = 29
opcode op_renew = 30
opcode op_restorefh = 31
opcode op_savefh = 32
opcode op_secinfo = 33
opcode op_setattr = 34
opcode op_setclientid = 35
opcode op_setclientid_confirm = 36
opcode op_verify = 37
opcode op_write = 38
opcode op_release_lockowner = 39
opcode op_backchannel_ctl = 40
opcode op_bind_conn_to_session = 41
opcode op_exchange_id = 42
opcode op_create_session = 43
opcode op_destroy_session = 44
opcode op_free_stateid = 45
opcode op_get_dir_delegation = 46
opcode op_getdeviceinfo = 47
opcode op_getdevicelist = 48
opcode op_layoutcommit = 49
opcode op_layoutget = 50
opcode op_layoutreturn = 51
opcode op_secinfo_no_name = 52
opcode op_sequence = 53
opcode op_set_ssv = 54
opcode op_test_stateid = 55
opcode op_want_delegation = 56
opcode op_destroy_clientid = 57
opcode op_reclaim_complete = 58
opcode op_allocate = 59
opcode op_copy = 60
opcode op_copy_notify = 61
opcode op_deallocate = 62
opcode op_io_advise = 63
opcode op_layouterror = 64
opcode op_layoutstats = 65
opcode op_offload_cancel = 66
opcode op_offload_status = 67
opcode op_read_plus = 68
opcode op_seek = 69
opcode op_write_same = 70
opcode op_clone = 71
opcode op_illegal = 10044

-- `NFS_PROGRAM` and the `NFS4_…_SIZE` macros
abbrev pub nfs_program : ℕ
nfs_program = 0x186a3

abbrev pub fhsize : ℕ
fhsize = 128

abbrev pub sessionid_size : ℕ
sessionid_size = 16

abbrev pub verifier_size : ℕ
verifier_size = 8

abbrev pub other_size : ℕ
other_size = 12

-- `OPEN4_SHARE_ACCESS_READ`, `OPEN4_SHARE_ACCESS_BOTH`
abbrev pub share_access_read : ℕ
share_access_read = 1

abbrev pub share_access_both : ℕ
share_access_both = 3

-- `FILE_SYNC4`
abbrev pub file_sync : ℕ
file_sync = 2

-- `FATTR4_SIZE`
abbrev pub fattr_size : ℕ
fattr_size = 4
