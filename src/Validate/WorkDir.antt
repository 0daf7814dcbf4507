-- ===== src/Validate/WorkDir.antt =====
-- What an accepted working directory is.
use mathlib.Core.List.{Memᴰ}
use arapuca.Prelude.{
  ◌≡◌, ◌↔◌, inl, inr, Bool, true, List, ◌++◌, Option, some, arith, ok, Bytes, any_sound,
  any_complete, starts_with, Option-cases, Bool-cases,
}
use arapuca.FilePath.{Component, slash, components}
use arapuca.Validate.{path_starts_with, resolve_or_self, resolved_in, validate_work_dir}
use arapuca.Validate.Cgroup.{path_starts_with_sound, path_starts_with_complete}

module _ (canonicalize : Bytes → Option Bytes) (is_dir : Bytes → Bool) where
  -- An absolute path that resolves to a directory inside one of the mounts, each resolved where
  -- that is possible; inside means that the mount's components begin the directory's.
  pub record IsMounted (dir : Bytes) (mounts : List Bytes) : Type 0 where
    pub absolute : starts_with slash dir ≡ true
    pub canonical : Bytes
    pub resolves : canonicalize dir ≡ some canonical
    pub exists : is_dir canonical ≡ true
    pub mount : Bytes
    pub listed : Memᴰ mount mounts
    pub rest : List Component
    pub inside :
        components canonical ≡ components (resolve_or_self mount (canonicalize mount)) ++ rest

  sound :
      (dir : Bytes) (mounts : List Bytes)
      → starts_with slash dir ≡ true
      → resolved_in canonicalize is_dir mounts (canonicalize dir) ≡ ok tt
      → IsMounted dir mounts
  sound dir mounts abs h = elim (Option-cases (canonicalize dir)) [
    | inl e ↦ absurd (cc (rw e at h))
    | inr (c, e) ↦
        let k : resolved_in canonicalize is_dir mounts (some c) ≡ ok tt = rw e at h in
        let (m, listed, begins) =
          any_sound (λ p. path_starts_with c (resolve_or_self p (canonicalize p))) mounts
            (ground arith) in
        let (rest, inside) = path_starts_with_sound c (resolve_or_self m (canonicalize m)) begins in
        record {
          absolute = abs;
          canonical = c;
          resolves = e;
          exists = ground arith;
          mount = m;
          listed = listed;
          rest = rest;
          inside = inside;
        }
  ]

  complete :
      (dir : Bytes) (mounts : List Bytes)
      → IsMounted dir mounts
      → resolved_in canonicalize is_dir mounts (canonicalize dir) ≡ ok tt
  complete dir mounts w =
      let begins : path_starts_with w.canonical (resolve_or_self w.mount (canonicalize w.mount))
          ≡ true =
        path_starts_with_complete w.canonical _ w.rest w.inside in
      let found =
        any_complete (λ p. path_starts_with w.canonical (resolve_or_self p (canonicalize p)))
          w.listed begins in
      rw (w.resolves, w.exists, found)

  -- A configured working directory is accepted exactly if it is absolute, resolves to a directory,
  -- and lies inside a read path or a write path.
  pub validate_work_dir_iff :
      (dir : Bytes) (read_paths write_paths : List Bytes)
      → (validate_work_dir canonicalize is_dir (some dir) read_paths write_paths ≡ ok tt)
        ↔ IsMounted dir (read_paths ++ write_paths)
  unfolding validate_work_dir
  validate_work_dir_iff dir read_paths write_paths = elim (Bool-cases (starts_with slash dir)) [
    | inl e ↦ (
      λ h. sound dir (read_paths ++ write_paths) e (rw e at h),
      λ w. rw e (complete dir (read_paths ++ write_paths) w),
    )
    | inr e ↦ ((λ h. cc (rw e at h)), λ w. cc (w.absolute))
  ]
