-- ===== src/Home.antt =====
-- crates/supervisor/src/home.rs, as it is built on Unix: the directories of the DSH home under the
-- plugin's data directory, and its secret files.

pub mod Removed
use aiohub_plugin_dsh_worksp.Prelude.{
  ℕ, String, Bool, true, ◌||◌, Option, none, some, List, [], ◌∷◌, Result, ok, err, if◌then◌else◌,
}
use aiohub_plugin_dsh_worksp.Prelude.Text.{format, contains}
use aiohub_plugin_dsh_worksp.Files.{
  Files, IoError, Task, Io, create_dir_all, set_permissions, exists, create_new, write,
  remove_dir_all, ◌>>=◌, ◌>>◌, pure, or_else,
}
use aiohub_plugin_dsh_worksp.Paths.{join, parent}

pub record HomeMode : Type 0 where
  pub directory : ℕ
  pub secret : ℕ

-- 0o700 and 0o600.
abbrev pub home_mode : HomeMode
home_mode = record { directory = 448; secret = 384 }

pub record DshHomeLayout : Type 0 where
  pub root : String
  pub data_dir : String
  pub sessions_dir : String
  pub credentials_dir : String
  pub runtime_dir : String
  pub logs_dir : String
  pub temp_dir : String

pub data HomeError : Type 0 where
  unsafe_name : String → HomeError
  io : IoError → HomeError

unfoldable pub entries : DshHomeLayout → List String
entries layout =
    layout.data_dir ∷ layout.sessions_dir ∷ layout.credentials_dir ∷ layout.runtime_dir
    ∷ layout.logs_dir ∷ layout.temp_dir ∷ []

apply_directory_mode : String → ℕ → Task HomeError (Unit {0})
apply_directory_mode path mode = or_else io (set_permissions path mode)

pub make_all : List String → Task HomeError (Unit {0})
unfolding apply_directory_mode
make_all [] = pure tt
make_all (entry ∷ rest) =
    or_else io (create_dir_all entry)
    >> apply_directory_mode entry home_mode.directory
    >> make_all rest

unfoldable pub layout_of : String → DshHomeLayout
layout_of path = record {
  root = path;
  data_dir = join path "data";
  sessions_dir = join path "sessions";
  credentials_dir = join path "credentials";
  runtime_dir = join path "runtime";
  logs_dir = join path "logs";
  temp_dir = join path "temp";
}

unfoldable pub create : String → Task HomeError DshHomeLayout
unfolding make_all entries layout_of
create path = let layout = layout_of path in make_all (entries layout) >>= λ done. pure layout

unfoldable pub secret_file : DshHomeLayout → String → Result HomeError String
secret_file layout name =
    if contains ".." name || contains "/" name || contains "\\" name
    then err (unsafe_name name)
    else ok (join layout.credentials_dir name)

make_parent : Option String → Io (Unit {0})
make_parent none = pure tt
make_parent (some dir) = create_dir_all dir

unfoldable pub write_secret : String → String → Task HomeError (Unit {0})
unfolding make_parent
write_secret path text =
    or_else io (make_parent (parent path) >> create_new path home_mode.secret >> write path text)

remove_if : Bool → String → Task HomeError (Unit {0})
remove_if there path = if there then or_else io (remove_dir_all path) else pure tt

unfoldable pub remove : DshHomeLayout → Task HomeError (Unit {0})
unfolding remove_if
remove layout s = let (there, t) = exists layout.root s in remove_if there layout.root t
