-- ===== src/Version.antt =====
-- pkg/version/version.go: what the program tells the API server about its build.
pub mod Banner
use Prim.Native.String as Text
use my_learning_journey.Base.{String}

-- The variables that the linker may set.
pub record Build : Type 0 where
  pub git_version : String
  pub git_commit : String
  pub git_tree_state : String
  pub build_date : String

-- Their values in the source.
abbrev pub unset_build : Build
unset_build = record {
  git_version = "v0.0.0-master+$Format:%h$";
  git_commit = "$Format:%H$";
  git_tree_state = "";
  build_date = "1970-01-01T00:00:00Z";
}

-- What package runtime says: `Version()`, `Compiler`, `GOOS`, `GOARCH`.
pub record Runtime : Type 0 where
  pub version : String
  pub compiler : String
  pub goos : String
  pub goarch : String

-- `genericversion.Info`, with the fields that are set.
pub record Info : Type 0 where
  pub git_version : String
  pub git_commit : String
  pub git_tree_state : String
  pub build_date : String
  pub go_version : String
  pub compiler : String
  pub platform : String

unfoldable pub version_info : Build → Runtime → Info
version_info build runtime = record {
  git_version = build.git_version;
  git_commit = build.git_commit;
  git_tree_state = build.git_tree_state;
  build_date = build.build_date;
  go_version = runtime.version;
  compiler = runtime.compiler;
  platform = Text.◌++◌ runtime.goos (Text.◌++◌ "/" runtime.goarch);
}
