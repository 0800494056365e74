-- ===== src/Version/Banner.antt =====
-- version/version.go: the version as a text.
use Prim.Native.String as Text
use my_learning_journey.Base.{String}

-- `VersionInfo`
unfoldable pub version_text : (metrics_server_version git_commit : String) → String
version_text metrics_server_version git_commit =
    Text.◌++◌ "version: " (Text.◌++◌ metrics_server_version (Text.◌++◌ "\ncommit: " git_commit))
