-- ===== src/Protocol/Status.antt =====
-- nfsv4/codepoint.h, and the status codes of nfsv4/nfs4xdr.h with their descriptions.
pub mod Texts
use text.Mathlib.Text.{◌==◌ as str_eq}
use ssqlite.Prelude.{ℕ, String, List, [], ◌∷◌, Option, none, some, ◌==◌, if◌then◌else◌}

-- `struct codepoint`
abbrev pub Codepoint : Type 0
Codepoint = String × ℕ

-- `codestring` scans to the entry of the value or to the empty description. `none` is a scan that
-- leaves a table with no such entry.
unfoldable pub codestring : List Codepoint → ℕ → Option String
codestring [] value = none
codestring ((description, v) ∷ set) value =
    let rest = codestring set value in
    if str_eq description ""
    then some "unknown error"
    else if v == value
    then some description
    else rest

-- `NFS4_OK`, `NFS4ERR_BADSESSION`
abbrev pub nfs4_ok : ℕ
nfs4_ok = 0

abbrev pub err_badsession : ℕ
err_badsession = 10052

-- The enumerators of `enum nfsstat4`, in the order of the source.
unfoldable pub nfsstat4 : List ℕ
nfsstat4 =
    0 ∷ 1 ∷ 2 ∷ 5 ∷ 6 ∷ 13 ∷ 17 ∷ 18 ∷ 20 ∷ 21 ∷ 22 ∷ 27 ∷ 28 ∷ 30 ∷ 31 ∷ 63 ∷ 66 ∷ 69 ∷ 70 ∷ 10001
    ∷ 10003 ∷ 10004 ∷ 10005 ∷ 10006 ∷ 10007 ∷ 10008 ∷ 10009 ∷ 10010 ∷ 10011 ∷ 10012 ∷ 10013 ∷ 10014
    ∷ 10015 ∷ 10016 ∷ 10017 ∷ 10018 ∷ 10019 ∷ 10020 ∷ 10021 ∷ 10022 ∷ 10023 ∷ 10024 ∷ 10025 ∷ 10026
    ∷ 10027 ∷ 10028 ∷ 10029 ∷ 10030 ∷ 10031 ∷ 10032 ∷ 10033 ∷ 10034 ∷ 10035 ∷ 10036 ∷ 10037 ∷ 10038
    ∷ 10039 ∷ 10040 ∷ 10041 ∷ 10042 ∷ 10043 ∷ 10044 ∷ 10045 ∷ 10046 ∷ 10047 ∷ 10048 ∷ 10049 ∷ 10050
    ∷ 10051 ∷ 10052 ∷ 10053 ∷ 10054 ∷ 10055 ∷ 10056 ∷ 10057 ∷ 10058 ∷ 10059 ∷ 10060 ∷ 10061 ∷ 10062
    ∷ 10063 ∷ 10064 ∷ 10065 ∷ 10066 ∷ 10067 ∷ 10068 ∷ 10069 ∷ 10070 ∷ 10071 ∷ 10072 ∷ 10074 ∷ 10075
    ∷ 10076 ∷ 10077 ∷ 10078 ∷ 10079 ∷ 10080 ∷ 10081 ∷ 10082 ∷ 10083 ∷ 10084 ∷ 10085 ∷ 10086 ∷ 10087
    ∷ 10088 ∷ 10089 ∷ 10090 ∷ 10091 ∷ 10092 ∷ 10093 ∷ 10094 ∷ []

-- The table of descriptions.
unfoldable pub nfsstatus : List Codepoint
nfsstatus =
    ("everything is okay", 0)
    ∷ ("caller not privileged", 1)
    ∷ ("no such file/directory", 2)
    ∷ ("hard I/O error", 5)
    ∷ ("no such device", 6)
    ∷ ("access denied", 13)
    ∷ ("file already exists", 17)
    ∷ ("different file systems", 18)
    ∷ ("should be a directory", 20)
    ∷ ("should not be a directory", 21)
    ∷ ("invalid argument ", 22)
    ∷ ("file exceeds server max", 27)
    ∷ ("no space on file system", 28)
    ∷ ("read-only file system", 30)
    ∷ ("too many hard links", 31)
    ∷ ("name exceeds server max", 63)
    ∷ ("directory not empty", 66)
    ∷ ("hard quota limit reached", 69)
    ∷ ("file no longer exists", 70)
    ∷ ("illegal filehandle", 10001)
    ∷ ("READDIR cookie is stale", 10003)
    ∷ ("operation not supported", 10004)
    ∷ ("response limit exceeded", 10005)
    ∷ ("undefined server error", 10006)
    ∷ ("type invalid for CREATE", 10007)
    ∷ ("file busy -- retry", 10008)
    ∷ ("nverify says attrs same", 10009)
    ∷ ("lock unavailable ", 10010)
    ∷ ("lock lease expired", 10011)
    ∷ ("I/O failed due to lock", 10012)
    ∷ ("in grace period  ", 10013)
    ∷ ("filehandle expired", 10014)
    ∷ ("share reserve denied", 10015)
    ∷ ("wrong security flavor", 10016)
    ∷ ("client ID in use ", 10017)
    ∷ ("resource exhaustion", 10018)
    ∷ ("file system relocated", 10019)
    ∷ ("current FH is not set", 10020)
    ∷ ("minor vers not supp", 10021)
    ∷ ("server has rebooted", 10022)
    ∷ ("server has rebooted", 10023)
    ∷ ("state is out of sync", 10024)
    ∷ ("incorrect stateid", 10025)
    ∷ ("request is out of seq.", 10026)
    ∷ ("verify -- attrs not same", 10027)
    ∷ ("overlapping lock range", 10028)
    ∷ ("should be file/directory", 10029)
    ∷ ("no saved filehandle", 10030)
    ∷ ("some file system moved", 10031)
    ∷ ("recommended attr not supp", 10032)
    ∷ ("reclaim outside of grace", 10033)
    ∷ ("reclaim error at server", 10034)
    ∷ ("conflict on reclaim", 10035)
    ∷ ("XDR decode failed", 10036)
    ∷ ("file locks held at CLOSE", 10037)
    ∷ ("conflict in OPEN and I/O", 10038)
    ∷ ("owner translation bad", 10039)
    ∷ ("UTF-8 char not supported", 10040)
    ∷ ("name not supported", 10041)
    ∷ ("lock range not supported", 10042)
    ∷ ("no atomic up/downgrade", 10043)
    ∷ ("undefined operation", 10044)
    ∷ ("file-locking deadlock", 10045)
    ∷ ("open file blocks op", 10046)
    ∷ ("lock-owner state revoked", 10047)
    ∷ ("callback path down", 10048)
    ∷ ("bad io mode", 10049)
    ∷ ("bad layout", 10050)
    ∷ ("bad session digest", 10051)
    ∷ ("bad session", 10052)
    ∷ ("bad slot", 10053)
    ∷ ("complete already", 10054)
    ∷ ("conn not bound to session", 10055)
    ∷ ("deleg aready wanted", 10056)
    ∷ ("backchan reqs outstanding", 10057)
    ∷ ("layout try later", 10058)
    ∷ ("layout unavailable", 10059)
    ∷ ("no matching layout", 10060)
    ∷ ("recall conflict", 10061)
    ∷ ("laytout type", 10062)
    ∷ ("unexpected seq. ID in req", 10063)
    ∷ ("[CB_]SEQ. op not 1st op", 10064)
    ∷ ("request too big  ", 10065)
    ∷ ("reply too big    ", 10066)
    ∷ ("rep. not all cached", 10067)
    ∷ ("retry + rep. uncached", 10068)
    ∷ ("retry/recovery too hard", 10069)
    ∷ ("too many ops in [CB_]COMP", 10070)
    ∷ ("op needs [CB_]SEQ. op", 10071)
    ∷ ("hash alg. not supp", 10072)
    ∷ ("client ID has state", 10074)
    ∷ ("IO to _SPARSE file hole", 10075)
    ∷ ("retry != original req", 10076)
    ∷ ("req has bad highest_slot", 10077)
    ∷ ("new req sent to dead sess", 10078)
    ∷ ("encr alg. not supp", 10079)
    ∷ ("I/O without a layout", 10080)
    ∷ ("addl ops not allowed", 10081)
    ∷ ("op done by wrong cred", 10082)
    ∷ ("op on wrong type object", 10083)
    ∷ ("delegation not avail.", 10084)
    ∷ ("cb rejected delegation", 10085)
    ∷ ("layout get before return", 10086)
    ∷ ("deleg./layout revoked", 10087)
    ∷ ("s2s not supported", 10088)
    ∷ ("s2s not authorized", 10089)
    ∷ ("arm of union not supp", 10090)
    ∷ ("dest not allowing copy", 10091)
    ∷ ("LFS not supported", 10092)
    ∷ ("incorrect label  ", 10093)
    ∷ ("dest not meeting reqs", 10094)
    ∷ ("", 0)
    ∷ []
