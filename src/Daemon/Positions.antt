-- ===== src/Daemon/Positions.antt =====
-- The files of a share are moved to where a new torrent expects them: `on_metadata_received` and
-- `preposition_files` of daemon/daemon/sync/torrent_mgr.py. A path is the list of its parts. Directories
-- are left out: what the code removes of them is empty.

pub mod Kept
use peerdup.Prelude.{
  ℕ, Text, Bool, true, false, ◌&&◌, ◌||◌, not, ◌≡◌, ◌↔◌, refl, Option, none, some, List, [], ◌∷◌,
  ◌++◌, map, if◌then◌else◌, eqb, ◌==◌, text_eq, text_beq_iff, select, HasEquality, arith,
}
use peerdup.Prelude.Table
use peerdup.Daemon.State.{StateDb}
use peerdup.Daemon.State.Shares.{get_share}
use peerdup.Daemon.State.Records.{get_files}

abbrev pub FilePath : Type 0
FilePath = List Text

unfoldable pub same_parts : List Text → List Text → Bool
same_parts [] [] = true
same_parts [] (t ∷ ts) = false
same_parts (t ∷ ts) [] = false
same_parts (t ∷ ts) (u ∷ us) = (t == u) && same_parts ts us

pub same_parts_iff : (ts us : List Text) → (same_parts ts us ≡ true) ↔ (ts ≡ us)
unfolding same_parts
same_parts_iff [] [] = ground arith
same_parts_iff [] (t ∷ ts) = ground arith
same_parts_iff (t ∷ ts) [] = ground arith
same_parts_iff (t ∷ ts) (u ∷ us) = ground (arith, text_beq_iff t u, same_parts_iff ts us)

instance abbrev pub path_eq : HasEquality FilePath
path_eq = record { same = same_parts; same_iff = same_parts_iff }

pub record File : Type 0 where
  pub path : FilePath
  pub size : ℕ
  pub content : Text

abbrev pub file_path : File → FilePath
file_path f = f.path

-- `name`, `parent`, and whether a path is below another
unfoldable pub name_of : FilePath → Text
name_of [] = []
name_of (t ∷ []) = t
name_of (t ∷ u ∷ ts) = name_of (u ∷ ts)

unfoldable pub parent : FilePath → FilePath
parent [] = []
parent (t ∷ []) = []
parent (t ∷ u ∷ ts) = t ∷ parent (u ∷ ts)

unfoldable pub is_below : FilePath → FilePath → Bool
is_below [] [] = false
is_below [] (t ∷ ts) = true
is_below (t ∷ ts) [] = false
is_below (t ∷ ts) (u ∷ us) = (t == u) && is_below ts us

unfoldable pub mem_path : FilePath → List FilePath → Bool
mem_path p [] = false
mem_path p (q ∷ qs) = (q == p) || mem_path p qs

-- `rename`, which replaces a file that is there, and `unlink`
unfoldable pub rename : FilePath → FilePath → List File → List File
rename src dest fs = elim (Table.find file_path src fs) [
  | none ↦ fs
  | some f ↦ record f { path = dest } ∷ select (λ g. not (g.path == src) && not (g.path == dest)) fs
]

unfoldable pub unlink : FilePath → List File → List File
unlink p fs = select (λ g. not (g.path == p)) fs

-- `local_index`: of the files with a name and a size, the last one that the walk comes to.
unfoldable pub find_local : FilePath → Text → ℕ → List File → Option FilePath
unfolding is_below name_of
find_local root name size [] = none
find_local root name size (f ∷ fs) =
    let later = find_local root name size fs in
    elim later [
      | some p ↦ some p
      | none ↦
          if is_below root f.path && ((name_of f.path == name) && eqb f.size size)
          then some f.path
          else none
    ]

-- Whether a file of the size is there.
abbrev pub has_size : ℕ → Option File → Bool
has_size size none = false
has_size size (some f) = eqb f.size size

abbrev is_given : List (FilePath × ℕ) → Bool
is_given [] = false
is_given (t ∷ ts) = true

-- What may be renamed and removed is up to the operating system; what may not raises, and is passed over.
module _ (may_rename : FilePath → FilePath → Bool) where
  -- One file of the torrent.
  unfoldable pub place_file :
      (Text → ℕ → Option FilePath) → FilePath → ℕ → List File → Bool × List File
  unfolding name_of
  place_file index expected size fs =
      if has_size size (Table.find file_path expected fs)
      then (false, fs)
      else elim (index (name_of expected) size) [
        | none ↦ (false, fs)
        | some src ↦
            if Table.has file_path src fs && may_rename src expected
            then (true, rename src expected fs)
            else (false, fs)
      ]

  unfoldable pub place_files :
      (Text → ℕ → Option FilePath) → List (FilePath × ℕ) → List File → Bool × List File
  place_files index [] fs = (false, fs)
  place_files index ((expected, size) ∷ ts) fs =
      let (moved, e) = place_file index expected size fs in
      let (more, last) = place_files index ts e in (moved || more, last)

module _ (may_unlink : FilePath → Bool) where
  -- The tracked files that are not in the new layout.
  unfoldable pub remove_stale : List FilePath → List FilePath → List File → Bool × List File
  remove_stale layout [] fs = (false, fs)
  remove_stale layout (p ∷ ps) fs =
      let stale = not (mem_path p layout) && (Table.has file_path p fs && may_unlink p) in
      let e = if stale then unlink p fs else fs in
      let (more, last) = remove_stale layout ps e in (stale || more, last)

module _ (may_rename : FilePath → FilePath → Bool) (may_unlink : FilePath → Bool) where
  -- `preposition_files`, where the layout has the paths with `save_path` before them
  unfoldable pub preposition_files :
      FilePath → List (FilePath × ℕ) → List FilePath → List File → Bool × List File
  unfolding place_files remove_stale
  preposition_files local_path layout tracked fs =
      let index : Text → ℕ → Option FilePath = λ name size. find_local local_path name size fs in
      let (moved, e) = place_files may_rename index layout fs in
      let (removed, last) = remove_stale may_unlink (map (λ t. t.0) layout) tracked e in
      (moved || removed, last)

  -- `on_metadata_received`: whether the torrent is checked again, and the files. `read` makes a path of a
  -- text, and `torrent_files` is the file list of the torrent.
  unfoldable pub on_metadata_received :
      (Text → FilePath) → List (FilePath × ℕ) → Text → StateDb → List File → Bool × List File
  unfolding preposition_files
  on_metadata_received read torrent_files share_id db fs = elim (get_share share_id db) [
    | none ↦ (false, fs)
    | some s ↦
        let local_path = read s.local_path in
        let layout = map (λ t. (parent local_path ++ t.0, t.1)) torrent_files in
        let tracked = map (λ x. local_path ++ read x.rel_path) (get_files share_id db) in
        if is_given torrent_files
        then preposition_files local_path layout tracked fs
        else (false, fs)
  ]
