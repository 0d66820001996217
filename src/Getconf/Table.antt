-- ===== src/Getconf/Table.antt =====
-- vols/build/aports/main/musl/getconf.c: `conf_table`. The value of an entry is a macro of the
-- system's headers, which the table names; the headers' values are a parameter of the program.
use Prim.Native.String.{String}
use hassio_installer.Prelude.{List, [], ◌∷◌}

pub data Handler : Type 0 where
  sysconf confstr pathconf constant uconstant : Handler

pub record Variable : Type 0 where
  pub name : String
  pub type : Handler
  pub value : String

abbrev row : String → Handler → String → Variable
row n t v = record { name = n; type = t; value = v }

-- The rows up to the one with a NULL name.
unfoldable pub conf_table : List Variable
conf_table =
    row "PATH" confstr "_CS_PATH"
    ∷ row "POSIX2_BC_BASE_MAX" constant "_POSIX2_BC_BASE_MAX"
    ∷ row "POSIX2_BC_DIM_MAX" constant "_POSIX2_BC_DIM_MAX"
    ∷ row "POSIX2_BC_SCALE_MAX" constant "_POSIX2_BC_SCALE_MAX"
    ∷ row "POSIX2_BC_STRING_MAX" constant "_POSIX2_BC_STRING_MAX"
    ∷ row "POSIX2_COLL_WEIGHTS_MAX" constant "_POSIX2_COLL_WEIGHTS_MAX"
    ∷ row "POSIX2_EXPR_NEST_MAX" constant "_POSIX2_EXPR_NEST_MAX"
    ∷ row "POSIX2_LINE_MAX" constant "_POSIX2_LINE_MAX"
    ∷ row "POSIX2_RE_DUP_MAX" constant "_POSIX2_RE_DUP_MAX"
    ∷ row "POSIX2_VERSION" constant "_POSIX2_VERSION"
    ∷ row "_POSIX_AIO_LISTIO_MAX" constant "_POSIX_AIO_LISTIO_MAX"
    ∷ row "_POSIX_AIO_MAX" constant "_POSIX_AIO_MAX"
    ∷ row "_POSIX_ARG_MAX" constant "_POSIX_ARG_MAX"
    ∷ row "_POSIX_CHILD_MAX" constant "_POSIX_CHILD_MAX"
    ∷ row "_POSIX_LINK_MAX" constant "_POSIX_LINK_MAX"
    ∷ row "_POSIX_MAX_CANON" constant "_POSIX_MAX_CANON"
    ∷ row "_POSIX_MAX_INPUT" constant "_POSIX_MAX_INPUT"
    ∷ row "_POSIX_MQ_OPEN_MAX" constant "_POSIX_MQ_OPEN_MAX"
    ∷ row "_POSIX_MQ_PRIO_MAX" constant "_POSIX_MQ_PRIO_MAX"
    ∷ row "_POSIX_NAME_MAX" constant "_POSIX_NAME_MAX"
    ∷ row "_POSIX_NGROUPS_MAX" constant "_POSIX_NGROUPS_MAX"
    ∷ row "_POSIX_OPEN_MAX" constant "_POSIX_OPEN_MAX"
    ∷ row "_POSIX_PATH_MAX" constant "_POSIX_PATH_MAX"
    ∷ row "_POSIX_PIPE_BUF" constant "_POSIX_PIPE_BUF"
    ∷ row "_POSIX_SSIZE_MAX" constant "_POSIX_SSIZE_MAX"
    ∷ row "_POSIX_STREAM_MAX" constant "_POSIX_STREAM_MAX"
    ∷ row "_POSIX_TZNAME_MAX" constant "_POSIX_TZNAME_MAX"
    ∷ row "BC_BASE_MAX" sysconf "_SC_BC_BASE_MAX"
    ∷ row "BC_DIM_MAX" sysconf "_SC_BC_DIM_MAX"
    ∷ row "BC_SCALE_MAX" sysconf "_SC_BC_SCALE_MAX"
    ∷ row "BC_STRING_MAX" sysconf "_SC_BC_STRING_MAX"
    ∷ row "COLL_WEIGHTS_MAX" sysconf "_SC_COLL_WEIGHTS_MAX"
    ∷ row "EXPR_NEST_MAX" sysconf "_SC_EXPR_NEST_MAX"
    ∷ row "LINE_MAX" sysconf "_SC_LINE_MAX"
    ∷ row "RE_DUP_MAX" sysconf "_SC_RE_DUP_MAX"
    ∷ row "_POSIX2_C_BIND" sysconf "_SC_2_C_BIND"
    ∷ row "POSIX2_C_DEV" sysconf "_SC_2_C_DEV"
    ∷ row "POSIX2_CHAR_TERM" sysconf "_SC_2_CHAR_TERM"
    ∷ row "POSIX2_FORT_DEV" sysconf "_SC_2_FORT_DEV"
    ∷ row "POSIX2_FORT_RUN" sysconf "_SC_2_FORT_RUN"
    ∷ row "POSIX2_LOCALEDEF" sysconf "_SC_2_LOCALEDEF"
    ∷ row "POSIX2_SW_DEV" sysconf "_SC_2_SW_DEV"
    ∷ row "POSIX2_UPE" sysconf "_SC_2_UPE"
    ∷ row "AIO_LISTIO_MAX" sysconf "_SC_AIO_LISTIO_MAX"
    ∷ row "AIO_MAX" sysconf "_SC_AIO_MAX"
    ∷ row "ARG_MAX" sysconf "_SC_ARG_MAX"
    ∷ row "CHILD_MAX" sysconf "_SC_CHILD_MAX"
    ∷ row "CLK_TCK" sysconf "_SC_CLK_TCK"
    ∷ row "MQ_OPEN_MAX" sysconf "_SC_MQ_OPEN_MAX"
    ∷ row "MQ_PRIO_MAX" sysconf "_SC_MQ_PRIO_MAX"
    ∷ row "NGROUPS_MAX" sysconf "_SC_NGROUPS_MAX"
    ∷ row "OPEN_MAX" sysconf "_SC_OPEN_MAX"
    ∷ row "STREAM_MAX" sysconf "_SC_STREAM_MAX"
    ∷ row "TZNAME_MAX" sysconf "_SC_TZNAME_MAX"
    ∷ row "_POSIX_JOB_CONTROL" sysconf "_SC_JOB_CONTROL"
    ∷ row "_POSIX_SAVED_IDS" sysconf "_SC_SAVED_IDS"
    ∷ row "_POSIX_VERSION" sysconf "_SC_VERSION"
    ∷ row "LINK_MAX" pathconf "_PC_LINK_MAX"
    ∷ row "MAX_CANON" pathconf "_PC_MAX_CANON"
    ∷ row "MAX_INPUT" pathconf "_PC_MAX_INPUT"
    ∷ row "NAME_MAX" pathconf "_PC_NAME_MAX"
    ∷ row "PATH_MAX" pathconf "_PC_PATH_MAX"
    ∷ row "PIPE_BUF" pathconf "_PC_PIPE_BUF"
    ∷ row "_POSIX_CHOWN_RESTRICTED" pathconf "_PC_CHOWN_RESTRICTED"
    ∷ row "_POSIX_NO_TRUNC" pathconf "_PC_NO_TRUNC"
    ∷ row "_POSIX_VDISABLE" pathconf "_PC_VDISABLE"
    ∷ row "PAGESIZE" sysconf "_SC_PAGESIZE"
    ∷ row "_POSIX_ASYNCHRONOUS_IO" sysconf "_SC_ASYNCHRONOUS_IO"
    ∷ row "_POSIX_FSYNC" sysconf "_SC_FSYNC"
    ∷ row "_POSIX_MAPPED_FILES" sysconf "_SC_MAPPED_FILES"
    ∷ row "_POSIX_MEMLOCK" sysconf "_SC_MEMLOCK"
    ∷ row "_POSIX_MEMLOCK_RANGE" sysconf "_SC_MEMLOCK_RANGE"
    ∷ row "_POSIX_MEMORY_PROTECTION" sysconf "_SC_MEMORY_PROTECTION"
    ∷ row "_POSIX_MESSAGE_PASSING" sysconf "_SC_MESSAGE_PASSING"
    ∷ row "_POSIX_MONOTONIC_CLOCK" sysconf "_SC_MONOTONIC_CLOCK"
    ∷ row "_POSIX_PRIORITY_SCHEDULING" sysconf "_SC_PRIORITY_SCHEDULING"
    ∷ row "_POSIX_SEMAPHORES" sysconf "_SC_SEMAPHORES"
    ∷ row "_POSIX_SHARED_MEMORY_OBJECTS" sysconf "_SC_SHARED_MEMORY_OBJECTS"
    ∷ row "_POSIX_SYNCHRONIZED_IO" sysconf "_SC_SYNCHRONIZED_IO"
    ∷ row "_POSIX_TIMERS" sysconf "_SC_TIMERS"
    ∷ row "_POSIX_SYNC_IO" pathconf "_PC_SYNC_IO"
    ∷ row "LOGIN_NAME_MAX" sysconf "_SC_LOGIN_NAME_MAX"
    ∷ row "_POSIX_THREADS" sysconf "_SC_THREADS"
    ∷ row "_POSIX_BARRIERS" sysconf "_SC_BARRIERS"
    ∷ row "_POSIX_READER_WRITER_LOCKS" sysconf "_SC_READER_WRITER_LOCKS"
    ∷ row "_POSIX_SPIN_LOCKS" sysconf "_SC_SPIN_LOCKS"
    ∷ row "IOV_MAX" sysconf "_SC_IOV_MAX"
    ∷ row "PAGE_SIZE" sysconf "_SC_PAGE_SIZE"
    ∷ row "_XOPEN_SHM" sysconf "_SC_XOPEN_SHM"
    ∷ row "FILESIZEBITS" pathconf "_PC_FILESIZEBITS"
    ∷ row "ATEXIT_MAX" sysconf "_SC_ATEXIT_MAX"
    ∷ row "GETGR_R_SIZE_MAX" sysconf "_SC_GETGR_R_SIZE_MAX"
    ∷ row "GETPW_R_SIZE_MAX" sysconf "_SC_GETPW_R_SIZE_MAX"
    ∷ row "_PHYS_PAGES" sysconf "_SC_PHYS_PAGES"
    ∷ row "_AVPHYS_PAGES" sysconf "_SC_AVPHYS_PAGES"
    ∷ row "_NPROCESSORS_CONF" sysconf "_SC_NPROCESSORS_CONF"
    ∷ row "_NPROCESSORS_ONLN" sysconf "_SC_NPROCESSORS_ONLN"
    ∷ row "CHAR_BIT" constant "CHAR_BIT"
    ∷ row "CHAR_MAX" constant "CHAR_MAX"
    ∷ row "CHAR_MIN" constant "CHAR_MIN"
    ∷ row "INT_MAX" constant "INT_MAX"
    ∷ row "INT_MIN" constant "INT_MIN"
    ∷ row "LONG_BIT" constant "LONG_BIT"
    ∷ row "LONG_MAX" constant "LONG_MAX"
    ∷ row "LONG_MIN" constant "LONG_MIN"
    ∷ row "SCHAR_MAX" constant "SCHAR_MAX"
    ∷ row "SCHAR_MIN" constant "SCHAR_MIN"
    ∷ row "SHRT_MAX" constant "SHRT_MAX"
    ∷ row "SHRT_MIN" constant "SHRT_MIN"
    ∷ row "SSIZE_MAX" constant "SSIZE_MAX"
    ∷ row "UCHAR_MAX" uconstant "UCHAR_MAX"
    ∷ row "UINT_MAX" uconstant "UINT_MAX"
    ∷ row "ULONG_MAX" uconstant "ULONG_MAX"
    ∷ row "USHRT_MAX" uconstant "USHRT_MAX"
    ∷ row "WORD_BIT" constant "WORD_BIT"
    ∷ []
