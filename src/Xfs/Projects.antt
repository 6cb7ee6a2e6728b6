-- ===== src/Xfs/Projects.antt =====
-- The projects of the quotaer and their file (`Directories` of pkg/xfs/quotaer.go and `getExistingIDs` of
-- pkg/xfs/utils.go).
pub mod RoundTrip
use Prim.Native.Char.{nul}
use csi.Prelude.{
  ℕ, zero, suc, String, ◌<>◌, Bool, true, false, Option, none, some, List, [], ◌∷◌, ◌⊎◌, inl, inr,
  ◌==◌, if◌then◌else◌,
}
use csi.Prelude.Decimal.{decimal}
use csi.Prelude.Split.{split, trim_space}
use csi.Prelude.Uint16.{parse_uint16}
use csi.Exec.{OsError, exist, not_exist, other}
use csi.State.Table.{upsert}

-- An entry of the map `Directories`: the directory with its `Info`.
pub record Project : Type 0 where
  pub directory : String
  pub id : ℕ
  pub bhard : String

abbrev pub directory_key : Project → String
directory_key p = p.directory

unfoldable pub ids_of : List Project → List ℕ
ids_of [] = []
ids_of (p ∷ ps) = p.id ∷ ids_of ps

-- `make([]byte, 1000)` is text too: the buffer writes behind it.
nuls : ℕ → String
nuls zero = ""
nuls (suc n) = String.◌∷◌ nul (nuls n)

line_of : Project → String
line_of p = decimal p.id <> (":" <> (p.directory <> (":" <> p.bhard)))

lines_of : List Project → String
unfolding line_of
lines_of [] = ""
lines_of (p ∷ ps) = line_of p <> ("\n" <> lines_of ps)

-- `Directories.String`, of the projects in the order in which Go walks through the map
unfoldable pub to_text : List Project → String
unfolding nuls lines_of
to_text ps = nuls 1000 <> lines_of ps

-- A line of the file, if it has the three fields. A number that cannot be parsed is 0, and one that is
-- out of range is 65535.
project_of : List String → Option Project
project_of (number ∷ directory ∷ bhard ∷ []) =
    some (record { directory = directory; id = parse_uint16 number; bhard = bhard })
project_of _ = none

parse_line : String → Option Project
unfolding project_of
parse_line line = if line == "" then none else project_of (split b':' line)

module _ {W : Type 0} (stat : String → W → Option OsError × W) where
  -- A directory that is gone is left out; any other error of `os.Stat` is not looked at.
  keep : Project → List Project → Option OsError × W → List Project × W
  keep p ps (some not_exist, w) = (ps, w)
  keep p ps (some exist, w) = (upsert directory_key p ps, w)
  keep p ps (some other, w) = (upsert directory_key p ps, w)
  keep p ps (none, w) = (upsert directory_key p ps, w)

  add_line : Option Project → List Project → W → List Project × W
  unfolding keep
  add_line none ps w = (ps, w)
  add_line (some p) ps w = keep p ps (stat p.directory w)

  -- The loop of `getExistingIDs`.
  unfoldable pub load_lines : List String → List Project → W → List Project × W
  unfolding parse_line add_line
  load_lines [] ps w = (ps, w)
  load_lines (line ∷ lines) ps w =
      let (ps', w') = add_line (parse_line (trim_space line)) ps w in load_lines lines ps' w'

  -- `getExistingIDs`, of the text of the file
  unfoldable pub existing_ids : String → W → List Project × W
  unfolding load_lines
  existing_ids text w = load_lines (split b'\n' text) [] w
