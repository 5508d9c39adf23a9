-- ===== src/Sandbox/Command.antt =====
-- `Sandbox` of src/fronta/model.py, and `command_env` and `build_argv` of src/fronta/sandbox.py. A dict is a list of
-- its items in order, a float limit is in thousandths, and `decimal` is Python's formatting of an integer.
use fronta.Prelude.{
  ℕ, ◌/◌, Bool, true, not, ◌&&◌, Option, none, some, List, [], ◌∷◌, ◌++◌, exists, every, flat_map,
  ◌==◌, if◌then◌else◌, max,
}
use fronta.Codec.Text.{Text, codes}
use fronta.Sandbox.Identity.{same_text, starts_with}

abbrev pub Dict : Type 0
Dict = List (Text × Text)

pub record Sandbox : Type 0 where
  pub ro_binds : List Text
  pub env : Dict
  pub cpu_time : Option ℕ
  pub memory_bytes : Option ℕ
  pub max_pids : Option ℕ
  pub tmpfs_bytes : ℕ
  pub max_output_bytes : ℕ

-- `Sandbox.__post_init__`, whose numbers are no negative ones here.
abbrev is_positive : Option ℕ → Bool
is_positive none = true
is_positive (some n) = not (n == 0)

abbrev pub is_env_name : Text → Bool
is_env_name name =
    not (starts_with (codes "FRONTA_") name)
    && not (exists (λ c. c == 61) name)
    && not (same_text name [])

unfoldable pub check_sandbox : Sandbox → Bool
check_sandbox s =
    every (λ (path : Text). starts_with (codes "/") path) s.ro_binds
    && is_positive s.cpu_time
    && is_positive s.memory_bytes
    && is_positive s.max_pids
    && not (s.tmpfs_bytes == 0)
    && not (s.max_output_bytes == 0)
    && every (λ (item : Text × Text). is_env_name item.0) s.env

-- `d[key] = value`, and `{**d, **other}`.
unfoldable pub put : Text → Text → Dict → Dict
put key value [] = (key, value) ∷ []
put key value (item ∷ items) =
    let rest = put key value items in
    if same_text item.0 key then (key, value) ∷ items else item ∷ rest

unfoldable pub update : Dict → Dict → Dict
unfolding put
update d [] = d
update d (item ∷ items) = update (put item.0 item.1 d) items

abbrev pub get : Text → Dict → Option Text
get key [] = none
get key (item ∷ items) =
    let rest = get key items in if same_text item.0 key then some item.1 else rest

abbrev pub sandbox_env : Text
sandbox_env = codes "FRONTA_SANDBOX_ID"

abbrev pub worker_env : Text
worker_env = codes "FRONTA_WORKER_ID"

unfoldable pub command_env : Sandbox → Text → Text → Dict → Dict
unfolding put update
command_env s worker sandbox_id task_env =
    let base =
      (codes "PATH", codes "/usr/local/bin:/usr/bin:/bin")
      ∷ (codes "HOME", codes "/work")
      ∷ (codes "LANG", codes "C.UTF-8")
      ∷ [] in
    update (put sandbox_env sandbox_id (put worker_env worker (update base s.env))) task_env

-- A merged-usr directory of the host that is a link, and where it leads.
abbrev pub Links : Type 0
Links = List (Text × Text)

abbrev pub default_ro_binds : List Text
default_ro_binds = codes "/usr" ∷ codes "/etc/alternatives" ∷ codes "/etc/ld.so.cache" ∷ []

abbrev bind_args : Text → List Text
bind_args path =
    (if exists (same_text path) default_ro_binds then codes "--ro-bind-try" else codes "--ro-bind")
    ∷ path
    ∷ path
    ∷ []

abbrev link_args : Text × Text → List Text
link_args link = codes "--symlink" ∷ link.1 ∷ link.0 ∷ []

abbrev setenv_args : Text × Text → List Text
setenv_args item = codes "--setenv" ∷ item.0 ∷ item.1 ∷ []

module _ (decimal : ℕ → Text) where
  abbrev limit_arg : Text → Option ℕ → List Text
  limit_arg name none = []
  limit_arg name (some n) = (name ++ decimal n) ∷ []

  -- `max(1, int(sandbox.cpu_time_s))`
  abbrev cpu_seconds : Option ℕ → Option ℕ
  cpu_seconds none = none
  cpu_seconds (some t) = some (max 1 (t / 1000))

  abbrev limits : Sandbox → List Text
  limits s =
      limit_arg (codes "--cpu=") (cpu_seconds s.cpu_time)
      ++ (limit_arg (codes "--as=") s.memory_bytes ++ limit_arg (codes "--nproc=") s.max_pids)

  abbrev limit_args : List Text → List Text
  limit_args [] = []
  limit_args (l ∷ ls) = codes "prlimit" ∷ ((l ∷ ls) ++ codes "--" ∷ [])

  -- The command line before the task's own arguments.
  abbrev pub options : Text → Sandbox → ℕ → Dict → Links → List Text
  options bwrap s status_fd env links =
      let size = decimal s.tmpfs_bytes in
      (bwrap
        ∷ codes "--unshare-user"
        ∷ codes "--unshare-all"
        ∷ codes "--disable-userns"
        ∷ codes "--die-with-parent"
        ∷ codes "--new-session"
        ∷ codes "--json-status-fd"
        ∷ decimal status_fd
        ∷ [])
      ++ (flat_map bind_args s.ro_binds
          ++ (flat_map link_args links
              ++ ((codes "--proc"
                    ∷ codes "/proc"
                    ∷ codes "--dev"
                    ∷ codes "/dev"
                    ∷ codes "--size"
                    ∷ size
                    ∷ codes "--tmpfs"
                    ∷ codes "/tmp"
                    ∷ codes "--size"
                    ∷ size
                    ∷ codes "--tmpfs"
                    ∷ codes "/work"
                    ∷ codes "--chdir"
                    ∷ codes "/work"
                    ∷ codes "--clearenv"
                    ∷ [])
                  ++ (flat_map setenv_args env ++ (codes "--" ∷ limit_args (limits s))))))

  -- `build_argv`; `links` are those of `_MERGED_USR_DIRS` that are links on the host.
  unfoldable pub build_argv : Text → Sandbox → List Text → ℕ → Dict → Links → List Text
  build_argv bwrap s argv status_fd env links = options bwrap s status_fd env links ++ argv
