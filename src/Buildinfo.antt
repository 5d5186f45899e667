-- ===== src/Buildinfo.antt =====
-- buildinfo.go: the revision that the server reports.
use homedns.Prelude.{List, [], ◌∷◌, Option, none, some, Bytes, codes, str_eq, if◌then◌else◌}

-- The loop over the settings, of pairs of a key and a value.
unfoldable pub revision_setting : List (Bytes × Bytes) → Bytes
revision_setting [] = codes "unknown"
revision_setting ((key, value) ∷ settings) =
    let rest = revision_setting settings in
    if str_eq key (codes "vcs.revision") then value else rest

-- What the toolchain embeds; `none` if debug.ReadBuildInfo finds nothing.
unfoldable pub embedded_revision : Option (List (Bytes × Bytes)) → Bytes
unfolding revision_setting
embedded_revision none = codes "unknown"
embedded_revision (some settings) = revision_setting settings

-- `vcsRevision`, with the revision that the linker stamps.
unfoldable pub vcs_revision : Bytes → Option (List (Bytes × Bytes)) → Bytes
unfolding embedded_revision
vcs_revision [] info = embedded_revision info
vcs_revision (c ∷ revision) info = c ∷ revision
