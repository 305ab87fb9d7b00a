-- ===== src/Protocol/Enums.antt =====
-- nfsv4/nfs4xdr.h: the other enumerations of NFSv4.1.
use ssqlite.Prelude.{ℕ}

-- `enum exchange_id_flags`
pub data ExchangeFlag : Type 0 where
  moved_refer supp_moved_migr supp_fence_ops bind_princ_stateid use_non_pnfs : ExchangeFlag
  use_pnfs_mds use_pnfs_ds mask_pnfs upd_confirmed_rec_a confirmed_r : ExchangeFlag

unfoldable pub exchange_flag : ExchangeFlag → ℕ
exchange_flag moved_refer = 0x00000001
exchange_flag supp_moved_migr = 0x00000002
exchange_flag supp_fence_ops = 0x00000004
exchange_flag bind_princ_stateid = 0x00000100
exchange_flag use_non_pnfs = 0x00010000
exchange_flag use_pnfs_mds = 0x00020000
exchange_flag use_pnfs_ds = 0x00040000
exchange_flag mask_pnfs = 0x00070000
exchange_flag upd_confirmed_rec_a = 0x40000000
exchange_flag confirmed_r = 0x80000000

-- `enum stable_how4`
pub data StableHow : Type 0 where
  unstable4 data_sync4 file_sync4 : StableHow

unfoldable pub stable_how : StableHow → ℕ
stable_how unstable4 = 0
stable_how data_sync4 = 1
stable_how file_sync4 = 2

-- `enum opentype4`
pub data OpenType : Type 0 where
  open_nocreate open_create : OpenType

unfoldable pub open_type : OpenType → ℕ
open_type open_nocreate = 0
open_type open_create = 1

-- `enum limit_by4`
pub data LimitBy : Type 0 where
  limit_size limit_blocks : LimitBy

unfoldable pub limit_by : LimitBy → ℕ
limit_by limit_size = 1
limit_by limit_blocks = 2

-- `enum createmode4`
pub data CreateMode : Type 0 where
  unchecked4 guarded4 exclusive4 exclusive4_1 : CreateMode

unfoldable pub create_mode : CreateMode → ℕ
create_mode unchecked4 = 0
create_mode guarded4 = 1
create_mode exclusive4 = 2
create_mode exclusive4_1 = 3

-- `enum open_delegation_type4`
pub data DelegationType : Type 0 where
  delegate_none delegate_read delegate_write delegate_none_ext : DelegationType

unfoldable pub delegation_type : DelegationType → ℕ
delegation_type delegate_none = 0
delegation_type delegate_read = 1
delegation_type delegate_write = 2
delegation_type delegate_none_ext = 3

-- `enum open_claim_type4`
pub data ClaimType : Type 0 where
  claim_null claim_previous claim_delegate_cur claim_delegate_prev claim_fh : ClaimType
  claim_deleg_cur_fh claim_deleg_prev_fh : ClaimType

unfoldable pub claim_type : ClaimType → ℕ
claim_type claim_null = 0
claim_type claim_previous = 1
claim_type claim_delegate_cur = 2
claim_type claim_delegate_prev = 3
claim_type claim_fh = 4
claim_type claim_deleg_cur_fh = 5
claim_type claim_deleg_prev_fh = 6

-- `enum state_protect_how4`
pub data ProtectHow : Type 0 where
  sp4_none sp4_mach_cred sp4_ssv : ProtectHow

unfoldable pub protect_how : ProtectHow → ℕ
protect_how sp4_none = 0
protect_how sp4_mach_cred = 1
protect_how sp4_ssv = 2

-- `enum why_no_delegation4`
pub data WhyNoDelegation : Type 0 where
  not_wanted contention resource not_supp_ftype write_deleg_not_supp_ftype : WhyNoDelegation
  not_supp_upgrade not_supp_downgrade cancelled is_dir : WhyNoDelegation

unfoldable pub why_no_delegation : WhyNoDelegation → ℕ
why_no_delegation not_wanted = 0
why_no_delegation contention = 1
why_no_delegation resource = 2
why_no_delegation not_supp_ftype = 3
why_no_delegation write_deleg_not_supp_ftype = 4
why_no_delegation not_supp_upgrade = 5
why_no_delegation not_supp_downgrade = 6
why_no_delegation cancelled = 7
why_no_delegation is_dir = 8

-- `OPEN4_SHARE_ACCESS_…`, with what is wanted of a delegation, and `OPEN4_SHARE_DENY_…`
pub data ShareAccess : Type 0 where
  access_read access_write access_both : ShareAccess

unfoldable pub share_access : ShareAccess → ℕ
share_access access_read = 1
share_access access_write = 2
share_access access_both = 3

pub data ShareDeny : Type 0 where
  deny_none deny_read deny_write deny_both : ShareDeny

unfoldable pub share_deny : ShareDeny → ℕ
share_deny deny_none = 0
share_deny deny_read = 1
share_deny deny_write = 2
share_deny deny_both = 3

pub data Want : Type 0 where
  want_deleg_mask want_no_preference want_read_deleg want_write_deleg want_any_deleg : Want
  want_no_deleg want_cancel want_signal_when_available want_push_when_uncontended : Want

unfoldable pub want : Want → ℕ
want want_deleg_mask = 0xFF00
want want_no_preference = 0x0000
want want_read_deleg = 0x0100
want want_write_deleg = 0x0200
want want_any_deleg = 0x0300
want want_no_deleg = 0x0400
want want_cancel = 0x0500
want want_signal_when_available = 0x10000
want want_push_when_uncontended = 0x20000
