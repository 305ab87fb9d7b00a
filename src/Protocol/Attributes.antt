-- ===== src/Protocol/Attributes.antt =====
-- nfsv4/nfs4xdr.h, `enum nfs4_attrs`: the attributes of a file, and their bitmaps.
use ssqlite.Prelude.{ℕ}

-- `enum nfs4_attrs`
pub data Attribute : Type 0 where
  supported_attrs file_type fh_expire_type change size link_support symlink_support : Attribute
  named_attr fsid unique_handles lease_time rdattr_error filehandle suppattr_exclcreat : Attribute
  acl aclsupport archive cansettime case_insensitive case_preserving chown_restricted : Attribute
  fileid files_avail files_free files_total fs_locations hidden homogeneous : Attribute
  maxfilesize maxlink maxname maxread maxwrite mimetype mode no_trunc numlinks owner : Attribute
  owner_group quota_avail_hard quota_avail_soft quota_used rawdev space_avail : Attribute
  space_free space_total space_used system time_access time_access_set time_backup : Attribute
  time_create time_delta time_metadata time_modify time_modify_set mounted_on_fileid : Attribute
  dir_notif_delay dirent_notif_delay dacl sacl change_policy fs_status fs_layout_types : Attribute
  layout_hint layout_types layout_blksize layout_alignment fs_locations_info : Attribute
  mdsthreshold retention_get retention_set retentevt_get retentevt_set retention_hold : Attribute
  mode_set_masked fs_charset_cap clone_blksize space_freed change_attr_type sec_label : Attribute

unfoldable pub attribute_number : Attribute → ℕ
attribute_number supported_attrs = 0
attribute_number file_type = 1
attribute_number fh_expire_type = 2
attribute_number change = 3
attribute_number size = 4
attribute_number link_support = 5
attribute_number symlink_support = 6
attribute_number named_attr = 7
attribute_number fsid = 8
attribute_number unique_handles = 9
attribute_number lease_time = 10
attribute_number rdattr_error = 11
attribute_number filehandle = 19
attribute_number suppattr_exclcreat = 75
attribute_number acl = 12
attribute_number aclsupport = 13
attribute_number archive = 14
attribute_number cansettime = 15
attribute_number case_insensitive = 16
attribute_number case_preserving = 17
attribute_number chown_restricted = 18
attribute_number fileid = 20
attribute_number files_avail = 21
attribute_number files_free = 22
attribute_number files_total = 23
attribute_number fs_locations = 24
attribute_number hidden = 25
attribute_number homogeneous = 26
attribute_number maxfilesize = 27
attribute_number maxlink = 28
attribute_number maxname = 29
attribute_number maxread = 30
attribute_number maxwrite = 31
attribute_number mimetype = 32
attribute_number mode = 33
attribute_number no_trunc = 34
attribute_number numlinks = 35
attribute_number owner = 36
attribute_number owner_group = 37
attribute_number quota_avail_hard = 38
attribute_number quota_avail_soft = 39
attribute_number quota_used = 40
attribute_number rawdev = 41
attribute_number space_avail = 42
attribute_number space_free = 43
attribute_number space_total = 44
attribute_number space_used = 45
attribute_number system = 46
attribute_number time_access = 47
attribute_number time_access_set = 48
attribute_number time_backup = 49
attribute_number time_create = 50
attribute_number time_delta = 51
attribute_number time_metadata = 52
attribute_number time_modify = 53
attribute_number time_modify_set = 54
attribute_number mounted_on_fileid = 55
attribute_number dir_notif_delay = 56
attribute_number dirent_notif_delay = 57
attribute_number dacl = 58
attribute_number sacl = 59
attribute_number change_policy = 60
attribute_number fs_status = 61
attribute_number fs_layout_types = 62
attribute_number layout_hint = 63
attribute_number layout_types = 64
attribute_number layout_blksize = 65
attribute_number layout_alignment = 66
attribute_number fs_locations_info = 67
attribute_number mdsthreshold = 68
attribute_number retention_get = 69
attribute_number retention_set = 70
attribute_number retentevt_get = 71
attribute_number retentevt_set = 72
attribute_number retention_hold = 73
attribute_number mode_set_masked = 74
attribute_number fs_charset_cap = 76
attribute_number clone_blksize = 77
attribute_number space_freed = 78
attribute_number change_attr_type = 79
attribute_number sec_label = 80
