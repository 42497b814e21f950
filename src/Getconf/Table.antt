-- ===== src/Getconf/Table.antt =====
-- `conf_table`. The numbers behind the constants come from the headers of the C library, so an entry
-- holds the constant's name as the source spells it.
use Prim.Native.String.{String}
use tcb.Base.{List, [], ◌∷◌}
use tcb.Base.Text.{Str, codes}

pub data Kind : Type 0 where
  sysconf confstr pathconf constant uconstant : Kind

pub record ConfVariable : Type 0 where
  pub name : Str
  pub kind : Kind
  pub value : Str

abbrev pub entry : String → Kind → String → ConfVariable
entry name kind value = record { name = codes name; kind = kind; value = codes value }

abbrev pub conf_table : List ConfVariable
conf_table =
    entry "PATH" confstr "_CS_PATH"
    ∷ entry "POSIX2_BC_BASE_MAX" constant "_POSIX2_BC_BASE_MAX"
    ∷ entry "POSIX2_BC_DIM_MAX" constant "_POSIX2_BC_DIM_MAX"
    ∷ entry "POSIX2_BC_SCALE_MAX" constant "_POSIX2_BC_SCALE_MAX"
    ∷ entry "POSIX2_BC_STRING_MAX" constant "_POSIX2_BC_STRING_MAX"
    ∷ entry "POSIX2_COLL_WEIGHTS_MAX" constant "_POSIX2_COLL_WEIGHTS_MAX"
    ∷ entry "POSIX2_EXPR_NEST_MAX" constant "_POSIX2_EXPR_NEST_MAX"
    ∷ entry "POSIX2_LINE_MAX" constant "_POSIX2_LINE_MAX"
    ∷ entry "POSIX2_RE_DUP_MAX" constant "_POSIX2_RE_DUP_MAX"
    ∷ entry "POSIX2_VERSION" constant "_POSIX2_VERSION"
    ∷ entry "_POSIX_AIO_LISTIO_MAX" constant "_POSIX_AIO_LISTIO_MAX"
    ∷ entry "_POSIX_AIO_MAX" constant "_POSIX_AIO_MAX"
    ∷ entry "_POSIX_ARG_MAX" constant "_POSIX_ARG_MAX"
    ∷ entry "_POSIX_CHILD_MAX" constant "_POSIX_CHILD_MAX"
    ∷ entry "_POSIX_LINK_MAX" constant "_POSIX_LINK_MAX"
    ∷ entry "_POSIX_MAX_CANON" constant "_POSIX_MAX_CANON"
    ∷ entry "_POSIX_MAX_INPUT" constant "_POSIX_MAX_INPUT"
    ∷ entry "_POSIX_MQ_OPEN_MAX" constant "_POSIX_MQ_OPEN_MAX"
    ∷ entry "_POSIX_MQ_PRIO_MAX" constant "_POSIX_MQ_PRIO_MAX"
    ∷ entry "_POSIX_NAME_MAX" constant "_POSIX_NAME_MAX"
    ∷ entry "_POSIX_NGROUPS_MAX" constant "_POSIX_NGROUPS_MAX"
    ∷ entry "_POSIX_OPEN_MAX" constant "_POSIX_OPEN_MAX"
    ∷ entry "_POSIX_PATH_MAX" constant "_POSIX_PATH_MAX"
    ∷ entry "_POSIX_PIPE_BUF" constant "_POSIX_PIPE_BUF"
    ∷ entry "_POSIX_SSIZE_MAX" constant "_POSIX_SSIZE_MAX"
    ∷ entry "_POSIX_STREAM_MAX" constant "_POSIX_STREAM_MAX"
    ∷ entry "_POSIX_TZNAME_MAX" constant "_POSIX_TZNAME_MAX"
    ∷ entry "BC_BASE_MAX" sysconf "_SC_BC_BASE_MAX"
    ∷ entry "BC_DIM_MAX" sysconf "_SC_BC_DIM_MAX"
    ∷ entry "BC_SCALE_MAX" sysconf "_SC_BC_SCALE_MAX"
    ∷ entry "BC_STRING_MAX" sysconf "_SC_BC_STRING_MAX"
    ∷ entry "COLL_WEIGHTS_MAX" sysconf "_SC_COLL_WEIGHTS_MAX"
    ∷ entry "EXPR_NEST_MAX" sysconf "_SC_EXPR_NEST_MAX"
    ∷ entry "LINE_MAX" sysconf "_SC_LINE_MAX"
    ∷ entry "RE_DUP_MAX" sysconf "_SC_RE_DUP_MAX"
    ∷ entry "_POSIX2_C_BIND" sysconf "_SC_2_C_BIND"
    ∷ entry "POSIX2_C_DEV" sysconf "_SC_2_C_DEV"
    ∷ entry "POSIX2_CHAR_TERM" sysconf "_SC_2_CHAR_TERM"
    ∷ entry "POSIX2_FORT_DEV" sysconf "_SC_2_FORT_DEV"
    ∷ entry "POSIX2_FORT_RUN" sysconf "_SC_2_FORT_RUN"
    ∷ entry "POSIX2_LOCALEDEF" sysconf "_SC_2_LOCALEDEF"
    ∷ entry "POSIX2_SW_DEV" sysconf "_SC_2_SW_DEV"
    ∷ entry "POSIX2_UPE" sysconf "_SC_2_UPE"
    ∷ entry "AIO_LISTIO_MAX" sysconf "_SC_AIO_LISTIO_MAX"
    ∷ entry "AIO_MAX" sysconf "_SC_AIO_MAX"
    ∷ entry "ARG_MAX" sysconf "_SC_ARG_MAX"
    ∷ entry "CHILD_MAX" sysconf "_SC_CHILD_MAX"
    ∷ entry "CLK_TCK" sysconf "_SC_CLK_TCK"
    ∷ entry "MQ_OPEN_MAX" sysconf "_SC_MQ_OPEN_MAX"
    ∷ entry "MQ_PRIO_MAX" sysconf "_SC_MQ_PRIO_MAX"
    ∷ entry "NGROUPS_MAX" sysconf "_SC_NGROUPS_MAX"
    ∷ entry "OPEN_MAX" sysconf "_SC_OPEN_MAX"
    ∷ entry "STREAM_MAX" sysconf "_SC_STREAM_MAX"
    ∷ entry "TZNAME_MAX" sysconf "_SC_TZNAME_MAX"
    ∷ entry "_POSIX_JOB_CONTROL" sysconf "_SC_JOB_CONTROL"
    ∷ entry "_POSIX_SAVED_IDS" sysconf "_SC_SAVED_IDS"
    ∷ entry "_POSIX_VERSION" sysconf "_SC_VERSION"
    ∷ entry "LINK_MAX" pathconf "_PC_LINK_MAX"
    ∷ entry "MAX_CANON" pathconf "_PC_MAX_CANON"
    ∷ entry "MAX_INPUT" pathconf "_PC_MAX_INPUT"
    ∷ entry "NAME_MAX" pathconf "_PC_NAME_MAX"
    ∷ entry "PATH_MAX" pathconf "_PC_PATH_MAX"
    ∷ entry "PIPE_BUF" pathconf "_PC_PIPE_BUF"
    ∷ entry "_POSIX_CHOWN_RESTRICTED" pathconf "_PC_CHOWN_RESTRICTED"
    ∷ entry "_POSIX_NO_TRUNC" pathconf "_PC_NO_TRUNC"
    ∷ entry "_POSIX_VDISABLE" pathconf "_PC_VDISABLE"
    ∷ entry "PAGESIZE" sysconf "_SC_PAGESIZE"
    ∷ entry "_POSIX_ASYNCHRONOUS_IO" sysconf "_SC_ASYNCHRONOUS_IO"
    ∷ entry "_POSIX_FSYNC" sysconf "_SC_FSYNC"
    ∷ entry "_POSIX_MAPPED_FILES" sysconf "_SC_MAPPED_FILES"
    ∷ entry "_POSIX_MEMLOCK" sysconf "_SC_MEMLOCK"
    ∷ entry "_POSIX_MEMLOCK_RANGE" sysconf "_SC_MEMLOCK_RANGE"
    ∷ entry "_POSIX_MEMORY_PROTECTION" sysconf "_SC_MEMORY_PROTECTION"
    ∷ entry "_POSIX_MESSAGE_PASSING" sysconf "_SC_MESSAGE_PASSING"
    ∷ entry "_POSIX_MONOTONIC_CLOCK" sysconf "_SC_MONOTONIC_CLOCK"
    ∷ entry "_POSIX_PRIORITY_SCHEDULING" sysconf "_SC_PRIORITY_SCHEDULING"
    ∷ entry "_POSIX_SEMAPHORES" sysconf "_SC_SEMAPHORES"
    ∷ entry "_POSIX_SHARED_MEMORY_OBJECTS" sysconf "_SC_SHARED_MEMORY_OBJECTS"
    ∷ entry "_POSIX_SYNCHRONIZED_IO" sysconf "_SC_SYNCHRONIZED_IO"
    ∷ entry "_POSIX_TIMERS" sysconf "_SC_TIMERS"
    ∷ entry "_POSIX_SYNC_IO" pathconf "_PC_SYNC_IO"
    ∷ entry "LOGIN_NAME_MAX" sysconf "_SC_LOGIN_NAME_MAX"
    ∷ entry "_POSIX_THREADS" sysconf "_SC_THREADS"
    ∷ entry "_POSIX_BARRIERS" sysconf "_SC_BARRIERS"
    ∷ entry "_POSIX_READER_WRITER_LOCKS" sysconf "_SC_READER_WRITER_LOCKS"
    ∷ entry "_POSIX_SPIN_LOCKS" sysconf "_SC_SPIN_LOCKS"
    ∷ entry "IOV_MAX" sysconf "_SC_IOV_MAX"
    ∷ entry "PAGE_SIZE" sysconf "_SC_PAGE_SIZE"
    ∷ entry "_XOPEN_SHM" sysconf "_SC_XOPEN_SHM"
    ∷ entry "FILESIZEBITS" pathconf "_PC_FILESIZEBITS"
    ∷ entry "ATEXIT_MAX" sysconf "_SC_ATEXIT_MAX"
    ∷ entry "GETGR_R_SIZE_MAX" sysconf "_SC_GETGR_R_SIZE_MAX"
    ∷ entry "GETPW_R_SIZE_MAX" sysconf "_SC_GETPW_R_SIZE_MAX"
    ∷ entry "_PHYS_PAGES" sysconf "_SC_PHYS_PAGES"
    ∷ entry "_AVPHYS_PAGES" sysconf "_SC_AVPHYS_PAGES"
    ∷ entry "_NPROCESSORS_CONF" sysconf "_SC_NPROCESSORS_CONF"
    ∷ entry "_NPROCESSORS_ONLN" sysconf "_SC_NPROCESSORS_ONLN"
    ∷ entry "CHAR_BIT" constant "CHAR_BIT"
    ∷ entry "CHAR_MAX" constant "CHAR_MAX"
    ∷ entry "CHAR_MIN" constant "CHAR_MIN"
    ∷ entry "INT_MAX" constant "INT_MAX"
    ∷ entry "INT_MIN" constant "INT_MIN"
    ∷ entry "LONG_BIT" constant "LONG_BIT"
    ∷ entry "LONG_MAX" constant "LONG_MAX"
    ∷ entry "LONG_MIN" constant "LONG_MIN"
    ∷ entry "SCHAR_MAX" constant "SCHAR_MAX"
    ∷ entry "SCHAR_MIN" constant "SCHAR_MIN"
    ∷ entry "SHRT_MAX" constant "SHRT_MAX"
    ∷ entry "SHRT_MIN" constant "SHRT_MIN"
    ∷ entry "SSIZE_MAX" constant "SSIZE_MAX"
    ∷ entry "UCHAR_MAX" uconstant "(long) UCHAR_MAX"
    ∷ entry "UINT_MAX" uconstant "(long) UINT_MAX"
    ∷ entry "ULONG_MAX" uconstant "(long) ULONG_MAX"
    ∷ entry "USHRT_MAX" uconstant "(long) USHRT_MAX"
    ∷ entry "WORD_BIT" constant "WORD_BIT"
    ∷ []
