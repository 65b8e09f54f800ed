-- ===== src/Daemon/Positions/Kept.antt =====
-- No file is lost when daemon/daemon/sync/torrent_mgr.py moves the files of a share, but those that it is told
-- to remove or to replace.
use peerdup.Prelude.{some-inj, beq_refl}
use peerdup.Prelude.{
  ℕ, Text, Bool, true, false, ◌&&◌, not, ◌≡◌, ◌⊎◌, refl, sym, ap, ◌∙◌, inl, inr, Option, none, some,
  List, [], ◌∷◌, map, if◌then◌else◌, ◌==◌, select, arith, Bool-cases, Option-cases,
}
use peerdup.Prelude.Table
use peerdup.Prelude.Table.{find-key}
use peerdup.Daemon.Positions.{
  FilePath, path_eq, same_parts_iff, File, file_path, mem_path, rename, unlink, has_size, name_of,
  place_file, place_files, remove_stale, find_local, preposition_files,
}

find-select :
    (test : FilePath → Bool) (p : FilePath) (fs : List File)
    → Table.find file_path p (select (λ g. test g.path) fs)
      ≡ (if test p then Table.find file_path p fs else none)
unfolding Table.find select
find-select test p [] = ground arith
find-select test p (f ∷ fs) =
    let rest = find-select test p fs in
    elim (Bool-cases (f.path == p)) [
      | inl same ↦
          let eq : f.path ≡ p = (same_parts_iff f.path p).0 same in
          elim (Bool-cases (test p)) [
            | inl passes ↦ rw (ap test eq ∙ passes, same, passes, Table.find) refl
            | inr fails ↦ rw (ap test eq ∙ fails, fails) (rest ∙ rw (fails) refl)
          ]
      | inr other ↦ elim (Bool-cases (test f.path)) [
        | inl passes ↦ rw (passes, other, Table.find) rest
        | inr fails ↦ rw (fails, other, Table.find) rest
      ]
    ]

find-rename :
    (src dest p : FilePath) (g : File) (fs : List File)
    → Table.find file_path src fs ≡ some g
    → Table.find file_path p (rename src dest fs) ≡ (
        if dest == p
        then some (record g { path = dest })
        else if src == p
        then none
        else Table.find file_path p fs)
unfolding rename Table.find
find-rename src dest p g fs found =
    let test : FilePath → Bool = λ q. not (q == src) && not (q == dest) in
    let rest = find-select test p fs in
    elim (Bool-cases (dest == p)) [
      | inl there ↦ rw (found, there, rename, Table.find) refl
      | inr other ↦
          rw (found, other, rename, Table.find)
            (rest
              ∙ ground (
                arith,
                other,
                same_parts_iff p src,
                same_parts_iff src p,
                same_parts_iff p dest,
                same_parts_iff dest p,
              ))
    ]

-- The data of a file stand at a path.
abbrev pub Holds : FilePath → File → List File → Type 0
Holds p f fs = Table.find file_path p fs ≡ some (record f { path = p })

rename-Kept :
    (src dest p : FilePath) (f g : File) (fs : List File)
    → Table.find file_path src fs ≡ some g
    → (dest == p) ≡ false
    → Holds p f fs
    → (q : FilePath) × Holds q f (rename src dest fs) × ((q ≡ p) ⊎ (q ≡ dest))
rename-Kept src dest p f g fs found other held = elim (Bool-cases (src == p)) [
  | inl same ↦
      let eq : src ≡ p = (same_parts_iff src p).0 same in
      let moved : g ≡ record f { path = p } =
        some-inj (sym found ∙ ap (λ x. Table.find file_path x fs) eq ∙ held) in
      (
        dest,
        find-rename src dest dest g fs found
            ∙ rw (beq_refl dest) (ap (λ (x : File). some (record x { path = dest })) moved),
        inr refl,
      )
  | inr differ ↦ (p, find-rename src dest p g fs found ∙ rw (other, differ) held, inl refl)
]

-- The data are where they were, or where the torrent expects a file.
abbrev pub Kept : FilePath → List FilePath → File → List File → Type 0
Kept p expected f fs = (q : FilePath) × Holds q f fs × ((q ≡ p) ⊎ (mem_path q expected ≡ true))

-- No path is expected twice.
abbrev pub IsDistinct : List (FilePath × ℕ) → Type 0
IsDistinct [] = Unit
IsDistinct (t ∷ ts) = (mem_path t.0 (map (λ u. u.0) ts) ≡ false) × IsDistinct ts

module _ (may_rename : FilePath → FilePath → Bool) where
  place_file-Kept :
      (index : Text → ℕ → Option FilePath) (expected p : FilePath) (size : ℕ) (f : File)
      (fs : List File)
      → (expected == p) ≡ false
      → Holds p f fs
      → (q : FilePath) × Holds q f (place_file may_rename index expected size fs).1
        × ((q ≡ p) ⊎ (q ≡ expected))
  unfolding place_file
  place_file-Kept index expected p size f fs other held =
      elim (Bool-cases (has_size size (Table.find file_path expected fs))) [
        | inl in_place ↦ rw (in_place, place_file) ((p, held, inl refl))
        | inr missing ↦ elim (Option-cases (index (name_of expected) size)) [
          | inl nowhere ↦ rw (missing, nowhere, place_file) ((p, held, inl refl))
          | inr (src, known) ↦ elim (Option-cases (Table.find file_path src fs)) [
            | inl gone ↦ rw (missing, known, gone, place_file) ((p, held, inl refl))
            | inr (g, found) ↦ elim (Bool-cases (may_rename src expected)) [
              | inl may ↦
                  rw (missing, known, found, may, place_file)
                    (rename-Kept src expected p f g fs found other held)
              | inr may_not ↦ rw (missing, known, found, may_not, place_file) ((p, held, inl refl))
            ]
          ]
        ]
      ]

  place_files-Kept :
      (index : Text → ℕ → Option FilePath) (ts : List (FilePath × ℕ)) (p : FilePath) (f : File)
      (fs : List File)
      → IsDistinct ts
      → mem_path p (map (λ t. t.0) ts) ≡ false
      → Holds p f fs
      → Kept p (map (λ t. t.0) ts) f (place_files may_rename index ts fs).1
  unfolding place_files mem_path
  place_files-Kept index [] p f fs distinct new held = (p, held, inl refl)
  place_files-Kept index ((expected, size) ∷ ts) p f fs distinct new held =
      let (q, first, at) = place_file-Kept index expected p size f fs (ground (arith, new)) held in
      let next : mem_path q (map (λ t. t.0) ts) ≡ false = elim at [
        | inl stays ↦ ap (λ x. mem_path x (map (λ t. t.0) ts)) stays ∙ ground (arith, new)
        | inr moves ↦ ap (λ x. mem_path x (map (λ t. t.0) ts)) moves ∙ distinct.0
      ] in
      let (r, last, where_to) =
        place_files-Kept index ts q f (place_file may_rename index expected size fs).1 distinct.1
          next first in
      (
        r,
        last,
        elim where_to [
          | inr expected_later ↦ inr (ground (arith, expected_later))
          | inl stays ↦ elim at [
            | inl same ↦ inl (stays ∙ same)
            | inr moved ↦ inr (ground (arith, (same_parts_iff expected r).1 (sym (stays ∙ moved))))
          ]
        ],
      )

module _ (may_unlink : FilePath → Bool) where
  -- A file that is in the layout, or is not tracked, is not removed.
  remove_stale-Holds :
      (layout tracked : List FilePath) (q : FilePath) (f : File) (fs : List File)
      → (mem_path q layout ≡ true) ⊎ (mem_path q tracked ≡ false)
      → Holds q f fs
      → Holds q f (remove_stale may_unlink layout tracked fs).1
  unfolding remove_stale mem_path unlink
  remove_stale-Holds layout [] q f fs safe held = held
  remove_stale-Holds layout (p ∷ ps) q f fs safe held =
      let later : (mem_path q layout ≡ true) ⊎ (mem_path q ps ≡ false) = elim safe [
        | inl expected ↦ inl expected
        | inr untracked ↦ inr (ground (arith, untracked))
      ] in
      elim (Bool-cases (not (mem_path p layout) && (Table.has file_path p fs && may_unlink p))) [
        | inl stale ↦
            let other : (q == p) ≡ false = elim safe [
              | inl expected ↦ ground (
                arith,
                stale,
                expected,
                same_parts_iff q p,
                λ (e : q ≡ p). ap (λ x. mem_path x layout) e,
              )
              | inr untracked ↦ ground (arith, untracked, same_parts_iff q p, same_parts_iff p q)
            ] in
            let left = find-select (λ x. not (x == p)) q fs ∙ rw (other) held in
            rw (stale, remove_stale) (remove_stale-Holds layout ps q f (unlink p fs) later left)
        | inr fresh ↦ rw (fresh, remove_stale) (remove_stale-Holds layout ps q f fs later held)
      ]

-- With no two files expected at one path, the data of every file that is neither tracked nor at an expected
-- path are there afterwards, at its own path or at an expected one, whatever renames and removals the
-- operating system allows.
pub preposition_files-Keeps :
    (may_rename : FilePath → FilePath → Bool) (may_unlink : FilePath → Bool) (local_path : FilePath)
    (layout : List (FilePath × ℕ)) (tracked : List FilePath) (p : FilePath) (f : File)
    (fs : List File)
    → IsDistinct layout
    → mem_path p (map (λ t. t.0) layout) ≡ false
    → mem_path p tracked ≡ false
    → Holds p f fs
    → Kept p
        (map (λ t. t.0) layout)
        f
        (preposition_files may_rename may_unlink local_path layout tracked fs).1
unfolding preposition_files
preposition_files-Keeps may_rename may_unlink local_path layout tracked p f fs distinct new free
      held =
    let index : Text → ℕ → Option FilePath = λ name size. find_local local_path name size fs in
    let (q, placed, at) = place_files-Kept may_rename index layout p f fs distinct new held in
    let safe : (mem_path q (map (λ t. t.0) layout) ≡ true) ⊎ (mem_path q tracked ≡ false) =
      elim at [
        | inl same ↦ inr (ap (λ x. mem_path x tracked) same ∙ free)
        | inr expected ↦ inl expected
      ] in
    (
      q,
      remove_stale-Holds may_unlink (map (λ t. t.0) layout) tracked q f
          (place_files may_rename index layout fs).1 safe placed,
      at,
    )
