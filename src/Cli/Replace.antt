-- ===== src/Cli/Replace.antt =====
-- replaceFile of internal/cli/files.go, which puts a text in the place of a file's. The file system is
-- a state that its operations change.
pub mod Whole
use bloblang_lsp.Common.{
  ℕ, Text, Bool, true, false, not, ◌&&◌, ◌||◌, Option, none, some, ◌==◌, if◌then◌else◌, text_eq,
}
use bloblang_lsp.Common.Result.{Result, ok, err, ◌>>=◌}

pub data FileKind : Type 0 where
  regular_file symbolic_link other_kind : FileKind

-- What os.Lstat tells of a file; `identity` is what os.SameFile compares.
pub record FileInfo : Type 0 where
  pub kind : FileKind
  pub mode : ℕ
  pub size : ℕ
  pub modified : ℕ
  pub identity : ℕ

pub data ReplaceError : Type 0 where
  no_parent no_information is_symlink not_regular not_readable not_created : ReplaceError
  not_written not_finished not_renamed file_changed : ReplaceError

-- The operations on files: `create_temp` gives the new file's name, if it makes one, and the flags
-- tell success.
pub record FileSystem (W : Type 0) : Type 0 where
  pub dir_of : Text → Text
  pub base_name : Text → Text
  pub join_path : Text → Text → Text
  pub eval_symlinks : W → Text → Option Text
  pub lstat : W → Text → Option FileInfo
  pub read : W → Text → Option Text
  pub create_temp : W → Text → W × Option Text
  pub write : W → Text → Text → W × Bool
  pub chmod : W → Text → ℕ → W × Bool
  pub sync : W → Text → W × Bool
  pub close : W → Text → W × Bool
  pub rename : W → Text → Text → W × Bool
  pub remove : W → Text → W

module _ {W : Type 0} (fs : FileSystem W) where
  abbrev pub Outcome : Type 0
  Outcome = W × Option ReplaceError

  -- `rejectSymlinks` and the Lstat behind it
  abbrev pub unless_symlink : Option FileInfo → Result ReplaceError FileInfo
  unless_symlink none = err no_information
  unless_symlink (some info) = by_kind info.kind
    where
      by_kind : FileKind → Result ReplaceError FileInfo
      by_kind symbolic_link = err is_symlink
      by_kind regular_file = ok info
      by_kind other_kind = ok info

  abbrev pub only_regular : FileInfo → Result ReplaceError FileInfo
  only_regular info = by_kind info.kind
    where
      by_kind : FileKind → Result ReplaceError FileInfo
      by_kind regular_file = ok info
      by_kind symbolic_link = err not_regular
      by_kind other_kind = err not_regular

  abbrev pub if_unchanged : Text → FileInfo → Option Text → Result ReplaceError FileInfo
  if_unchanged original info none = err not_readable
  if_unchanged original info (some text) =
      if text_eq text original then ok info else err file_changed

  -- The checks in front of the first change.
  unfoldable pub inspect : W → Text → Text → Result ReplaceError FileInfo
  inspect w path original = do
    info ← unless_symlink (fs.lstat w path)
    before ← only_regular info
    if_unchanged original before (fs.read w path)

  -- A step that can fail, and what follows.
  abbrev pub and_then : W × Bool → ReplaceError → (W → Outcome) → Outcome
  and_then (w, true) e next = next w
  and_then (w, false) e next = (w, some e)

  abbrev pub same_file : FileInfo → FileInfo → Bool
  same_file before after =
      before.identity == after.identity
      && (before.size == after.size && before.modified == after.modified)

  abbrev pub finish_rename : W × Bool → Outcome
  finish_rename (w, true) = (w, none)
  finish_rename (w, false) = (w, some not_renamed)

  abbrev pub rename_if : W → Text → Text → FileInfo → Result ReplaceError FileInfo → Outcome
  rename_if w temp path before (err e) = (w, some e)
  rename_if w temp path before (ok after) =
      if same_file before after
      then finish_rename (fs.rename w temp path)
      else (w, some file_changed)

  unfoldable pub rename_unchanged : W → Text → Text → FileInfo → Outcome
  rename_unchanged w temp path before =
      rename_if w temp path before (unless_symlink (fs.lstat w path))

  -- The temporary file is written, and takes the file's place.
  unfoldable pub fill_temp : W → Text → Text → FileInfo → Text → Outcome
  unfolding rename_unchanged
  fill_temp w temp path before replacement =
      and_then (fs.write w temp replacement) not_written (λ w₁.
        and_then (fs.chmod w₁ temp before.mode) not_finished (λ w₂.
          and_then (fs.sync w₂ temp) not_finished (λ w₃.
            and_then (fs.close w₃ temp) not_finished (λ w₄. rename_unchanged w₄ temp path before))))

  -- The deferred calls.
  abbrev pub clean_up : Text → Outcome → Outcome
  clean_up temp (w, e) = (fs.remove (fs.close w temp).0 temp, e)

  abbrev pub with_temp : W × Option Text → Text → FileInfo → Text → Outcome
  with_temp (w, none) path before replacement = (w, some not_created)
  with_temp (w, some temp) path before replacement =
      clean_up temp (fill_temp w temp path before replacement)

  abbrev pub replace_if : W → Text → Text → Result ReplaceError FileInfo → Outcome
  replace_if w path replacement (err e) = (w, some e)
  replace_if w path replacement (ok before) =
      with_temp (fs.create_temp w (fs.dir_of path)) path before replacement

  unfoldable pub replace_at : W → Text → Text → Text → Outcome
  unfolding inspect fill_temp
  replace_at w path original replacement = replace_if w path replacement (inspect w path original)

  abbrev pub resolved : Text → Option Text → Option Text
  resolved path none = none
  resolved path (some parent) = some (fs.join_path parent (fs.base_name path))

  -- The path with its directory's aliases resolved.
  abbrev pub target_of : W → Text → Option Text
  target_of w path = resolved path (fs.eval_symlinks w (fs.dir_of path))

  abbrev pub replace_target : W → Option Text → Text → Text → Outcome
  replace_target w none original replacement = (w, some no_parent)
  replace_target w (some target) original replacement = replace_at w target original replacement

  unfoldable pub replace_file : W → Text → Text → Text → Outcome
  unfolding replace_at
  replace_file w path original replacement =
      replace_target w (target_of w path) original replacement
