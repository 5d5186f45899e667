-- ===== src/Tests/Buildinfo.antt =====
-- buildinfo.go on short settings.
use homedns.Prelude.{◌≡◌, refl, [], ◌∷◌, none, some, codes, str_eq}
use homedns.Buildinfo.{vcs_revision, embedded_revision, revision_setting}

stamped : vcs_revision (codes "abc") (some ((codes "vcs.revision", codes "def") ∷ [])) ≡ codes "abc"
unfolding vcs_revision
stamped = refl

embedded :
    vcs_revision []
      (some ((codes "GOOS", codes "linux") ∷ (codes "vcs.revision", codes "def") ∷ []))
    ≡ codes "def"
unfolding vcs_revision embedded_revision revision_setting str_eq
embedded = refl

unknown : vcs_revision [] none ≡ codes "unknown"
unfolding vcs_revision embedded_revision
unknown = refl
